-- ===== src/Kernel/Perms.antt =====
-- kernel/perms.c: the table of permissions. A resource's name is the list of its bytes before the
-- terminator; an `int` that is only compared for equality or masked is its 32-bit pattern.
pub mod Policy
use oxalyn.Kernel.Search.{same, find}
use oxalyn.Base.{
  ℕ, zero, suc, ◌+◌, ◌&&◌, ◌||◌, Bool, true, false, not, Option, none, some, List, [], ◌∷◌, ◌==◌,
  if◌then◌else◌, has, update, take,
}

abbrev pub perm_read : ℕ
perm_read = 1

abbrev pub perm_write : ℕ
perm_write = 2

abbrev pub perm_execute : ℕ
perm_execute = 4

abbrev pub max_perm_entries : ℕ
max_perm_entries = 32

pub record Permission : Type 0 where
  pub resource : List ℕ
  pub owner_uid : ℕ
  pub perms : ℕ
  pub used : Bool

abbrev pub Perms : Type 0
Perms = ℕ → Permission

abbrev pub matches : Perms → List ℕ → ℕ → Bool
matches p r i = (p i).used && same (p i).resource r

abbrev pub unused : Perms → ℕ → Bool
unused p i = not (p i).used

unfoldable pub perms_init : Perms → Perms
perms_init p = λ i. record (p i) { used = false }

-- The buffer of a name has 32 bytes, of which 31 are copied.
abbrev pub add_entry : Perms → List ℕ → ℕ → ℕ → Option ℕ → Perms
add_entry p r owner mode none = p
add_entry p r owner mode (some i) =
    update p i (record { resource = take 31 r; owner_uid = owner; perms = mode; used = true })

abbrev pub set_entry : Perms → List ℕ → ℕ → ℕ → Option ℕ → Perms
unfolding find
set_entry p r owner mode (some i) = update p i (record (p i) { owner_uid = owner; perms = mode })
set_entry p r owner mode none = add_entry p r owner mode (find max_perm_entries 0 (unused p))

unfoldable pub perms_register : Perms → List ℕ → ℕ → ℕ → Perms
unfolding set_entry
perms_register p r owner mode = set_entry p r owner mode (find max_perm_entries 0 (matches p r))

abbrev pub allows : Perms → ℕ → ℕ → Option ℕ → Bool
allows p uid perm none = false
allows p uid perm (some i) = uid == (p i).owner_uid && has (p i).perms perm

unfoldable pub check_permission : Perms → List ℕ → ℕ → ℕ → Bool
unfolding find
check_permission p r uid perm =
    uid == 0 || allows p uid perm (find max_perm_entries 0 (matches p r))
