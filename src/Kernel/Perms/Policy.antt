-- ===== src/Kernel/Perms/Policy.antt =====
-- What a registration grants, and to whom.
use oxalyn.Base.{
  ℕ, ◌+◌, ◌≤◌, ◌<◌, ◌≡◌, ◌≢◌, refl, subst, sym, ap, ◌∙◌, Bool, true, false, ◌&&◌, ◌||◌, Option,
  none, some, List, ◌==◌, if◌then◌else◌, inl, inr, Bool-cases, Option-cases, has, update,
  update_self, update-ne, take, arith,
}
use oxalyn.Kernel.Search.{same, find}
use oxalyn.Kernel.Search.Laws.{
  same_self, same_eq, apart, alike, find_congr, find_passes, find_absent, find_range, find_only,
}
use oxalyn.Kernel.Perms.{
  Permission, Perms, max_perm_entries, matches, unused, add_entry, set_entry, perms_register,
  allows, check_permission,
}

abbrev grants : ℕ → ℕ → ℕ → ℕ → Bool
grants owner mode uid perm = uid == 0 || (uid == owner && has mode perm)

check_here :
    (p : Perms) (i : ℕ) (q : Permission) (r : List ℕ) (uid perm : ℕ)
    → find max_perm_entries 0 (matches (update p i q) r) ≡ some i
    → check_permission (update p i q) r uid perm ≡ grants q.owner_uid q.perms uid perm
unfolding check_permission
check_here p i q r uid perm h = rw (h, update_self p i q) refl

matches-update :
    (p : Perms) (i : ℕ) (q : Permission) (r : List ℕ)
    → (q.used && same q.resource r) ≡ matches p r i
    → (j : ℕ) → matches (update p i q) r j ≡ matches p r j
matches-update p i q r h j = elim (alike i j) [
  | inl k ↦ rw (k, update_self p i q) h
  | inr k ↦ rw (update-ne p i q j k) refl
]

allows_elsewhere :
    (p : Perms) (i : ℕ) (q : Permission) (uid perm : ℕ) (o : Option ℕ)
    → ((k : ℕ) → o ≡ some k → k ≢ i)
    → allows (update p i q) uid perm o ≡ allows p uid perm o
allows_elsewhere p i q uid perm none h = refl
allows_elsewhere p i q uid perm (some k) h = rw (update-ne p i q k (h k refl)) refl

check_elsewhere :
    (p : Perms) (i : ℕ) (q : Permission) (r : List ℕ) (uid perm : ℕ)
    → (q.used && same q.resource r) ≡ false
    → matches p r i ≡ false
    → check_permission (update p i q) r uid perm ≡ check_permission p r uid perm
unfolding check_permission
check_elsewhere p i q r uid perm h m =
    let o = find max_perm_entries 0 (matches p r) in
    let ne : (k : ℕ) → o ≡ some k → k ≢ i =
      λ k e. apart (matches p r) k i (find_passes max_perm_entries 0 k (matches p r) e) m in
    rw
      (find_congr max_perm_entries 0 (matches (update p i q) r) (matches p r)
        (matches-update p i q r (h ∙ sym m)))
      (ap (λ b. uid == 0 || b) (allows_elsewhere p i q uid perm o ne))

check_absent :
    (p : Perms) (r : List ℕ) (uid perm : ℕ)
    → find max_perm_entries 0 (matches p r) ≡ none
    → uid ≢ 0
    → check_permission p r uid perm ≡ false
unfolding check_permission
check_absent p r uid perm e n0 = rw e (ground arith)

-- The permission that a registration finds is set, for its name and for another.
check-set :
    (p : Perms) (r r' : List ℕ) (owner mode uid perm i : ℕ)
    → find max_perm_entries 0 (matches p r) ≡ some i
    → check_permission (set_entry p r owner mode (some i)) r' uid perm
      ≡ (if same r r' then grants owner mode uid perm else check_permission p r' uid perm)
unfolding set_entry
check-set p r r' owner mode uid perm i h =
    let q = record (p i) { owner_uid = owner; perms = mode } in
    let m : matches p r i ≡ true = find_passes max_perm_entries 0 i (matches p r) h in
    let res : (p i).resource ≡ r = same_eq (p i).resource r (ground arith) in
    elim (Bool-cases (same r r')) [
      | inl e ↦
          let moved =
            find_congr max_perm_entries 0 (matches (update p i q) r) (matches p r)
              (matches-update p i q r refl) in
          simp e (
            check_here p i q r' uid perm (
              subst (λ x. find max_perm_entries 0 (matches (update p i q) x) ≡ some i)
                (same_eq r r' e) (moved ∙ h)))
      | inr e ↦
          let other : matches p r' i ≡ false = rw res (ground arith) in
          simp e (check_elsewhere p i q r' uid perm other other)
    ]

check-add :
    (p : Perms) (r r' : List ℕ) (owner mode uid perm i : ℕ)
    → take 31 r ≡ r
    → find max_perm_entries 0 (matches p r) ≡ none
    → find max_perm_entries 0 (unused p) ≡ some i
    → check_permission (add_entry p r owner mode (some i)) r' uid perm
      ≡ (if same r r' then grants owner mode uid perm else check_permission p r' uid perm)
check-add p r r' owner mode uid perm i short absent h =
    let q : Permission = record {
      resource = take 31 r;
      owner_uid = owner;
      perms = mode;
      used = true;
    } in
    let vacant : unused p i ≡ true = find_passes max_perm_entries 0 i (unused p) h in
    let range = find_range max_perm_entries 0 i (unused p) h in
    elim (Bool-cases (same r r')) [
      | inl e ↦
          let now : matches (update p i q) r i ≡ true =
            rw (update_self p i q, short) (same_self r) in
          let before : (k : ℕ)
              → 0 ≤ k
              → k < 0 + max_perm_entries
              → k ≢ i
              → matches (update p i q) r k ≡ false =
            λ k a b c.
              rw (update-ne p i q k c)
                (find_absent max_perm_entries 0 k (matches p r) absent a b) in
          let found =
            find_only max_perm_entries 0 i (matches (update p i q) r) now range.0 range.1 before in
          simp e (
            check_here p i q r' uid perm (
              subst (λ x. find max_perm_entries 0 (matches (update p i q) x) ≡ some i)
                (same_eq r r' e) found))
      | inr e ↦
          let old : matches p r' i ≡ false = ground arith in
          simp e (check_elsewhere p i q r' uid perm (rw short e) old)
    ]

-- A registration leaves the answers for other names as they were, also in a full table.
pub check_other :
    (p : Perms) (r r' : List ℕ) (owner mode uid perm : ℕ)
    → take 31 r ≡ r
    → same r r' ≡ false
    → check_permission (perms_register p r owner mode) r' uid perm ≡ check_permission p r' uid perm
unfolding perms_register set_entry
check_other p r r' owner mode uid perm short ne =
    elim (Option-cases (find max_perm_entries 0 (matches p r))) [
      | inr (i, e) ↦ rw e (rw ne at (check-set p r r' owner mode uid perm i e))
      | inl e ↦ elim (Option-cases (find max_perm_entries 0 (unused p))) [
        | inr (i, k) ↦ rw (e, k) (rw ne at (check-add p r r' owner mode uid perm i short e k))
        | inl k ↦ rw (e, k) refl
      ]
    ]

-- After a registration only root and the owner have a permission, also in a full table.
pub check_owner :
    (p : Perms) (r : List ℕ) (owner mode uid perm : ℕ)
    → take 31 r ≡ r
    → uid ≢ 0
    → uid ≢ owner
    → check_permission (perms_register p r owner mode) r uid perm ≡ false
unfolding perms_register set_entry
check_owner p r owner mode uid perm short n0 other =
    let s = same_self r in
    let denied : grants owner mode uid perm ≡ false = ground arith in
    elim (Option-cases (find max_perm_entries 0 (matches p r))) [
      | inr (i, e) ↦ rw e (rw s at (check-set p r r owner mode uid perm i e) ∙ denied)
      | inl e ↦ elim (Option-cases (find max_perm_entries 0 (unused p))) [
        | inr (i, k) ↦
            rw (e, k) (rw s at (check-add p r r owner mode uid perm i short e k) ∙ denied)
        | inl k ↦ rw (e, k) (check_absent p r uid perm e n0)
      ]
    ]

-- For a name of at most 31 bytes and a table with an entry to spare, after perms_register: a user
-- has a permission on the resource of that name if and only if it is root, or it is the owner given
-- and the mode given has the permission; the answers for all other names are those of before.
pub check_permission-perms_register :
    (p : Perms) (r r' : List ℕ) (owner mode uid perm spare : ℕ)
    → take 31 r ≡ r
    → spare < max_perm_entries
    → (p spare).used ≡ false
    → check_permission (perms_register p r owner mode) r' uid perm ≡ (
        if same r r'
        then uid == 0 || (uid == owner && has mode perm)
        else check_permission p r' uid perm)
unfolding perms_register
check_permission-perms_register p r r' owner mode uid perm spare short h v =
    elim (Option-cases (find max_perm_entries 0 (matches p r))) [
      | inr (i, e) ↦ rw e (check-set p r r' owner mode uid perm i e)
      | inl e ↦ elim (Option-cases (find max_perm_entries 0 (unused p))) [
        | inr (i, k) ↦ rw (e, k) (check-add p r r' owner mode uid perm i short e k)
        | inl k ↦
            let full =
              find_absent max_perm_entries 0 spare (unused p) k (omega arith) (omega arith) in
            ground arith
      ]
    ]
