-- ===== src/Kernel/Scheduler/Choice.antt =====
-- Which process the scheduler chooses.
use oxalyn.Base.{
  ℕ, zero, suc, ◌+◌, ◌≤◌, ◌<◌, ◌≡◌, ◌^◌, refl, sym, ap, ◌∙◌, subst, ◌⊎◌, inl, inr, Bool, true,
  false, ◌&&◌, ◌==◌, if◌then◌else◌, Bool-cases, arith,
}
use oxalyn.Base.Int.{ℤ, pos, negsuc, signed32, ltb_ℤ}
use oxalyn.Kernel.Process.{max_processes}
use oxalyn.Kernel.Scheduler.{Table, Sched, is_ready, pick, choose, scheduler, context_switch}

abbrev pub level : Table → ℕ → ℕ
level t i = (t i).priority

abbrev pub is_ready_at : Table → ℕ → Bool
is_ready_at t i = is_ready (t i).state

-- Priorities are small numbers, as the source gives them (0 to 7): none reads as negative.
abbrev pub SmallPriorities : Table → Type 0
SmallPriorities t = (i : ℕ) → level t i < 2 ^ 31

-- The loop's result is as good as what it began with and as every process it has seen, and it
-- is one of those.
record Picked (t : Table) (i left next : ℕ) (best : ℤ) (next' : ℕ) (best' : ℤ) : Type 0 where
  above : ltb_ℤ best' best ≡ false
  beats :
      (j : ℕ)
      → i ≤ j
      → j < i + left
      → is_ready_at t j ≡ true
      → ltb_ℤ best' (pos (level t j)) ≡ false
  known :
      ((next' ≡ next) × (best' ≡ best))
      ⊎ ((is_ready_at t next' ≡ true)
          × (i ≤ next')
          × (next' < i + left)
          × (best' ≡ pos (level t next')))

-- If a is not below b, and c is below b, then a is not below c.
not_below_trans : (a b c : ℤ) → ltb_ℤ a b ≡ false → ltb_ℤ c b ≡ true → ltb_ℤ a c ≡ false
not_below_trans a b c h k = ground arith

not_below-le : (a b c : ℤ) → ltb_ℤ a b ≡ false → ltb_ℤ b c ≡ false → ltb_ℤ a c ≡ false
not_below-le a b c h k = ground arith

not_below_refl : (a : ℤ) → ltb_ℤ a a ≡ false
not_below_refl a = ground arith

small-signed32 : (x : ℕ) → x < 2 ^ 31 → signed32 x ≡ pos x
small-signed32 x h = ground arith

better-Picked :
    (t : Table) (left i next : ℕ) (best : ℤ) {n : ℕ} {m : ℤ}
    → (is_ready_at t i && ltb_ℤ best (pos (level t i))) ≡ true
    → Picked t (i + 1) left i (pos (level t i)) n m
    → Picked t i (suc left) next best n m
better-Picked t left i next best {n} {m} b p = record {
  above = not_below_trans m (pos (level t i)) best p.above (ground arith);
  beats = λ j h k r. elim (Bool-cases (j == i)) [
    | inl e ↦
        let same : j ≡ i = ground arith in
        subst (λ k. ltb_ℤ m (pos (level t k)) ≡ false) (sym same) p.above
    | inr e ↦ p.beats j (ground arith) (omega arith) r
  ];
  known = elim p.known [
    | inl (same, e) ↦ inr (
        subst (λ k. (is_ready_at t k ≡ true) × (i ≤ k) × (k < i + suc left) × (m ≡ pos (level t k)))
          (sym same) (ground arith, omega arith, omega arith, e))
    | inr (r, lo, hi, e) ↦ inr (r, omega arith, omega arith, e)
  ];
}

same-Picked :
    (t : Table) (left i next : ℕ) (best : ℤ) {n : ℕ} {m : ℤ}
    → (is_ready_at t i && ltb_ℤ best (pos (level t i))) ≡ false
    → Picked t (i + 1) left next best n m
    → Picked t i (suc left) next best n m
same-Picked t left i next best {n} {m} b p = record {
  above = p.above;
  beats = λ j h k r. elim (Bool-cases (j == i)) [
    | inl e ↦
        let same : j ≡ i = ground arith in
        let r' : is_ready_at t i ≡ true = subst (λ k. is_ready_at t k ≡ true) same r in
        subst (λ k. ltb_ℤ m (pos (level t k)) ≡ false) (sym same)
          (not_below-le m best (pos (level t i)) p.above (ground arith))
    | inr e ↦ p.beats j (ground arith) (omega arith) r
  ];
  known = elim p.known [
    | inl k ↦ inl k
    | inr (r, lo, hi, e) ↦ inr (r, omega arith, omega arith, e)
  ];
}

-- One round of the loop, for a process whose priority does not read as negative.
pick-step :
    (t : Table) (left i next : ℕ) (best : ℤ) (b : Bool)
    → level t i < 2 ^ 31
    → (is_ready_at t i && ltb_ℤ best (pos (level t i))) ≡ b
    → pick (suc left) i t next best
      ≡ pick left (i + 1) t (if b then i else next) (if b then pos (level t i) else best)
pick-step t left i next best b small e = opened ∙ rw (small-signed32 (level t i) small, e) refl
  where
    opened : pick (suc left) i t next best ≡ (
        let prio = signed32 (level t i) in
        let better = is_ready_at t i && ltb_ℤ best prio in
        pick left (i + 1) t (if better then i else next) (if better then prio else best))
    opened = unfold pick in refl

pick-Picked :
    (t : Table) (left i next : ℕ) (best : ℤ)
    → SmallPriorities t
    → let (next', best') = pick left i t next best in Picked t i left next best next' best'
pick-Picked t zero i next best small =
    unfold pick in
    record {
      above = not_below_refl best;
      beats = λ j h k r. absurd (omega arith);
      known = inl (refl, refl);
    }
pick-Picked t (suc left) i next best small =
    elim (Bool-cases (is_ready_at t i && ltb_ℤ best (pos (level t i)))) [
      | inl b ↦
          subst (λ r. Picked t i (suc left) next best r.0 r.1)
            (sym (pick-step t left i next best true (small i) b))
            (better-Picked t left i next best b
              (pick-Picked t left (i + 1) i (pos (level t i)) small))
      | inr b ↦
          subst (λ r. Picked t i (suc left) next best r.0 r.1)
            (sym (pick-step t left i next best false (small i) b))
            (same-Picked t left i next best b (pick-Picked t left (i + 1) next best small))
    ]

-- The two numbers that the first loop of the scheduler ends with.
abbrev picked : Sched → ℕ × ℤ
picked s = pick max_processes 0 s.table s.current_pid (negsuc 0)

choose-ready : (s : Sched) → ltb_ℤ (picked s).1 (pos 0) ≡ false → choose s ≡ (s.table, (picked s).0)
unfolding choose
choose-ready s e = simp e refl

test_eq : (a b : ℕ) → (a == b) ≡ true → a ≡ b
test_eq a b e = ground arith

-- The current process after the scheduler is the one chosen.
scheduler-current : (s : Sched) → (scheduler s).current_pid ≡ (choose s).1
unfolding scheduler context_switch
scheduler-current s = elim (Bool-cases ((choose s).1 == s.current_pid)) [
  | inl e ↦ simp e (sym (test_eq (choose s).1 s.current_pid e))
  | inr e ↦ simp e refl
]

not_negative : (m : ℤ) (x : ℕ) → m ≡ pos x → ltb_ℤ m (pos 0) ≡ false
not_negative m x e = subst (λ k. ltb_ℤ k (pos 0) ≡ false) (sym e) (ground arith)

at_most : (m : ℤ) (x y : ℕ) → m ≡ pos x → ltb_ℤ m (pos y) ≡ false → y ≤ x
at_most m x y e h =
    let k : ltb_ℤ (pos x) (pos y) ≡ false = subst (λ k. ltb_ℤ k (pos y) ≡ false) e h in ground arith

beaten : (s : Sched) (i : ℕ) (m : ℤ) → m ≡ negsuc 0 → ltb_ℤ m (pos (level s.table i)) ≡ false → ⊥
beaten s i m e h =
    let k : ltb_ℤ (negsuc 0) (pos (level s.table i)) ≡ false =
      subst (λ k. ltb_ℤ k (pos (level s.table i)) ≡ false) e h in
    ground arith

-- If some process is ready, the scheduler makes a ready process current whose priority no ready
-- process exceeds. Priorities are below 2 ^ 31.
pub scheduler_highest :
    (s : Sched) (i : ℕ)
    → SmallPriorities s.table
    → i < max_processes
    → is_ready_at s.table i ≡ true
    → let next = (scheduler s).current_pid in
      (is_ready_at s.table next ≡ true)
      × (next < max_processes)
      × ((j : ℕ)
          → j < max_processes
          → is_ready_at s.table j ≡ true
          → level s.table j ≤ level s.table next)
scheduler_highest s i small h r =
    let p = pick-Picked s.table max_processes 0 s.current_pid (negsuc 0) small in
    elim p.known [
      | inl (n, e) ↦ absurd (beaten s i (picked s).1 e (p.beats i (omega arith) h r))
      | inr (rdy, lo, hi, e) ↦
          let found : (scheduler s).current_pid ≡ (picked s).0 =
            scheduler-current s ∙ ap (λ x. x.1) (choose-ready s (not_negative _ _ e)) in
          subst
            (λ next.
              (is_ready_at s.table next ≡ true)
              × (next < max_processes)
              × ((j : ℕ)
                  → j < max_processes
                  → is_ready_at s.table j ≡ true
                  → level s.table j ≤ level s.table next))
            (sym found) (rdy, hi, λ j k q. at_most (picked s).1 _ _ e (p.beats j (omega arith) k q))
    ]
