-- ===== src/Kernel/Scheduler/Running.antt =====
-- The processes that are marked as running.
use oxalyn.Base.{
  List, [], ◌∷◌, ℕ, zero, suc, ◌+◌, ◌≤◌, ◌<◌, ◌≡◌, ◌∙◌, sym, ap, refl, subst, true, false, ◌&&◌,
  ltb, ◌==◌, if◌then◌else◌, inl, inr, Bool-cases, Option, none, some, arith, update, update_self,
}
use oxalyn.Base.Int.{ℤ, pos, negsuc, ltb_ℤ, signed32}
use oxalyn.Kernel.Process.{Process, free, ready, running, max_processes}
use oxalyn.Kernel.Scheduler.{
  Table, Sched, is_running, is_blocked, is_ready, pick, set_state, unblock, choose, scheduler,
  context_switch, new_process, process_create, process_kill, first_free,
}

-- Only the current process is marked as running, and it is one of the table.
pub record OneRuns (s : Sched) : Type 0 where
  pub only : (i : ℕ) → is_running (s.table i).state ≡ true → i ≡ s.current_pid
  pub in_table : s.current_pid < max_processes

abbrev Only : Table → ℕ → Type 0
Only t c = (j : ℕ) → is_running (t j).state ≡ true → j ≡ c

update-Only :
    (t : Table) (i c : ℕ) (p : Process)
    → is_running p.state ≡ false
    → Only t c
    → Only (update t i p) c
unfolding update
update-Only t i c p e h j r = elim (Bool-cases (j == i)) [
  | inl k ↦ absurd (at_i k r)
  | inr k ↦ h j (elsewhere k r)
]
  where
    at_i : (j == i) ≡ true → is_running (if j == i then p else t j).state ≡ true → ⊥
    at_i k = rw k (λ q. ground arith)

    elsewhere :
        (j == i) ≡ false
        → is_running (if j == i then p else t j).state ≡ true
        → is_running (t j).state ≡ true
    elsewhere k = rw k (λ q. q)

-- Where a process starts to run after the one before it has stopped.
switch-Only :
    (t : Table) (from to : ℕ)
    → Only t from
    → is_running (t from).state ≡ false
    → Only (set_state t to running) to
unfolding update
switch-Only t from to h stopped j r = elim (Bool-cases (j == to)) [
  | inl k ↦ ground arith
  | inr k ↦ absurd (idle (elsewhere k r))
]
  where
    elsewhere :
        (j == to) ≡ false
        → is_running (if j == to then record (t to) { state = running } else t j).state ≡ true
        → is_running (t j).state ≡ true
    elsewhere k = rw k (λ q. q)

    idle : is_running (t j).state ≡ true → ⊥
    idle q =
        let still : is_running (t from).state ≡ true =
          subst (λ k. is_running (t k).state ≡ true) (h j q) q in
        ground arith

unblock-Only : (t : Table) (left i next c : ℕ) → Only t c → Only (unblock left i t next).0 c
unfolding unblock
unblock-Only t zero i next c h = h
unblock-Only t (suc left) i next c h = elim (Bool-cases (is_blocked (t i).state)) [
  | inl b ↦ simp b (update-Only t i c (record (t i) { state = ready }) refl h)
  | inr b ↦ simp b (unblock-Only t left (i + 1) next c h)
]

unblock-lt :
    (t : Table) (left i next : ℕ)
    → i + left ≤ max_processes
    → next < max_processes
    → (unblock left i t next).1 < max_processes
unfolding unblock
unblock-lt t zero i next h k = k
unblock-lt t (suc left) i next h k = elim (Bool-cases (is_blocked (t i).state)) [
  | inl b ↦ simp b (omega arith)
  | inr b ↦ simp b (unblock-lt t left (i + 1) next (omega arith) k)
]

pick-lt :
    (t : Table) (left i next : ℕ) (best : ℤ)
    → i + left ≤ max_processes
    → next < max_processes
    → (pick left i t next best).0 < max_processes
unfolding pick
pick-lt t zero i next best h k = k
pick-lt t (suc left) i next best h k =
    let better = is_ready (t i).state && ltb_ℤ best (signed32 (t i).priority) in
    pick-lt t left (i + 1) (if better then i else next) _ (omega arith) (ground arith)

choose-Only : (s : Sched) → Only s.table s.current_pid → Only (choose s).0 s.current_pid
unfolding choose
choose-Only s h =
    elim (Bool-cases (ltb_ℤ (pick max_processes 0 s.table s.current_pid (negsuc 0)).1 (pos 0))) [
      | inl b ↦ simp b (unblock-Only s.table max_processes 0 _ s.current_pid h)
      | inr b ↦ simp b h
    ]

choose-lt : (s : Sched) → s.current_pid < max_processes → (choose s).1 < max_processes
unfolding choose
choose-lt s h =
    elim (Bool-cases (ltb_ℤ (pick max_processes 0 s.table s.current_pid (negsuc 0)).1 (pos 0))) [
      | inl b ↦ simp b (
          unblock-lt s.table max_processes 0 _ (omega arith)
            (pick-lt s.table max_processes 0 s.current_pid (negsuc 0) (omega arith) h))
      | inr b ↦ simp b (pick-lt s.table max_processes 0 s.current_pid (negsuc 0) (omega arith) h)
    ]

context_switch-OneRuns :
    (s : Sched) (to : ℕ)
    → OneRuns s
    → to < max_processes
    → OneRuns (context_switch s s.current_pid to)
unfolding context_switch
context_switch-OneRuns s to v h =
    let inside : ltb s.current_pid max_processes ≡ true = ground (arith, v.in_table) in
    elim (Bool-cases (is_running (s.table s.current_pid).state)) [
      | inl r ↦ record {
        only =
            simp (inside, r)
              (switch-Only (set_state s.table s.current_pid ready) s.current_pid to
                (update-Only s.table s.current_pid s.current_pid
                  (record (s.table s.current_pid) { state = ready }) refl v.only)
                (stopped s.table s.current_pid));
        in_table = h;
      }
      | inr r ↦ record {
        only = simp (inside, r) (switch-Only s.table s.current_pid to v.only r);
        in_table = h;
      }
    ]
  where
    stopped : (t : Table) (i : ℕ) → is_running (set_state t i ready i).state ≡ false
    stopped t i = rw (update_self t i (record (t i) { state = ready })) refl

pub scheduler-OneRuns : (s : Sched) → OneRuns s → OneRuns (scheduler s)
unfolding scheduler
scheduler-OneRuns s v =
    let chosen : OneRuns (record s { table = (choose s).0 }) = record {
      only = choose-Only s v.only;
      in_table = v.in_table;
    } in
    elim (Bool-cases ((choose s).1 == s.current_pid)) [
      | inl e ↦ simp e chosen
      | inr e ↦ simp e (
          context_switch-OneRuns (record s { table = (choose s).0 }) (choose s).1 chosen
            (choose-lt s v.in_table))
    ]

process_create-OneRuns :
    (s : Sched) (entry priority : ℕ) → OneRuns s → OneRuns (process_create s entry priority).1
unfolding process_create
process_create-OneRuns s entry priority v = go (first_free max_processes 0 s.table)
  where
    go :
        (o : Option ℕ)
        → OneRuns
            (elim o as (λ x. Option ℕ × Sched) [
              | none ↦ (none, s)
              | some pid ↦ (
                some pid,
                record s { table = update s.table pid (new_process pid entry priority) },
              )
            ]).1
    go none = v
    go (some pid) = record {
      only = update-Only s.table pid s.current_pid (new_process pid entry priority) refl v.only;
      in_table = v.in_table;
    }

process_kill-OneRuns : (s : Sched) (pid : ℕ) → OneRuns s → OneRuns (process_kill s pid)
unfolding process_kill
process_kill-OneRuns s pid v = elim (Bool-cases (ltb pid max_processes)) [
  | inl e ↦ record {
    only =
        simp e (
          update-Only s.table pid s.current_pid (record (s.table pid) { state = free }) refl
            v.only);
    in_table = v.in_table;
  }
  | inr e ↦ record { only = simp e v.only; in_table = v.in_table }
]

test_eq : (a b : ℕ) → (a == b) ≡ true → a ≡ b
test_eq a b e = ground arith

-- A process that does not run is put into the table.
pub put-OneRuns :
    (s : Sched) (i : ℕ) (p : Process)
    → is_running p.state ≡ false
    → OneRuns s
    → OneRuns (record s { table = update s.table i p })
put-OneRuns s i p e v = record {
  only = update-Only s.table i s.current_pid p e v.only;
  in_table = v.in_table;
}

-- A process is changed and stays in its state.
pub same-OneRuns :
    (s : Sched) (i : ℕ) (p : Process)
    → p.state ≡ (s.table i).state
    → OneRuns s
    → OneRuns (record s { table = update s.table i p })
unfolding update
same-OneRuns s i p e v = record { only = only; in_table = v.in_table }
  where
    only : (j : ℕ) → is_running (update s.table i p j).state ≡ true → j ≡ s.current_pid
    only j = elim (Bool-cases (j == i)) [
      | inl k ↦ rw k (λ r. test_eq j i k ∙ v.only i (ap is_running (sym e) ∙ r))
      | inr k ↦ rw k (v.only j)
    ]

-- What happens to the process table over time.
pub data Event : Type 0 where
  schedules : Event
  creates : ℕ → ℕ → Event
  kills : ℕ → Event

unfoldable pub happens : Sched → Event → Sched
happens s schedules = scheduler s
happens s (creates entry priority) = (process_create s entry priority).1
happens s (kills pid) = process_kill s pid

unfoldable pub history : Sched → List Event → Sched
unfolding happens
history s [] = s
history s (e ∷ es) = history (happens s e) es

-- From a table in which only the current process runs, whatever processes are created, killed and
-- scheduled, in any order: only the current process is marked as running, and it is in the table.
history-OneRuns : (s : Sched) (es : List Event) → OneRuns s → OneRuns (history s es)
unfolding history happens
history-OneRuns s [] v = v
history-OneRuns s (schedules ∷ es) v = history-OneRuns (scheduler s) es (scheduler-OneRuns s v)
history-OneRuns s (creates entry priority ∷ es) v =
    history-OneRuns (process_create s entry priority).1 es
      (process_create-OneRuns s entry priority v)
history-OneRuns s (kills pid ∷ es) v =
    history-OneRuns (process_kill s pid) es (process_kill-OneRuns s pid v)
