-- ===== src/Kernel/Files/Access.antt =====
-- Who gets at a file, over a run of the file system with its table of permissions.
use oxalyn.Base.{
  ℕ, ◌-◌, ◌≡◌, ◌≢◌, ◌<◌, refl, sym, ◌∙◌, subst, true, false, not, none, some, List, [], ◌∷◌, inl,
  inr, update, update-all, take, arith, Bool-cases, Option-cases,
}
use oxalyn.Kernel.Search.{same, find}
use oxalyn.Kernel.Search.Laws.{same_eq, find_passes, find_range, find_absent}
use oxalyn.Kernel.Perms.{Perms, check_permission, perm_read, perm_write, perms_register}
use oxalyn.Kernel.Perms.Policy.{check_other, check_owner}
use oxalyn.Kernel.Files.{
  File, Fs, max_files, max_file_size, fs_eacces, named, find_file, store, create_new, write_old,
  put_file, fs_init, fs_create, fs_write, fs_read, read_at, fs_delete, delete_at,
}
use oxalyn.Kernel.Files.Contents.{IsUnique}

-- A user that is neither root nor the owner of the file has no permission on its name.
abbrev Guards : Perms → File → Type 0
Guards p f =
    (n : List ℕ) (uid perm : ℕ)
    → named f n ≡ true
    → uid ≢ 0
    → uid ≢ f.owner_uid
    → check_permission p n uid perm ≡ false

pub record IsValid (fs : Fs) : Type 0 where
  pub unique : IsUnique fs
  pub in_table : (i : ℕ) → (fs.files i).used ≡ true → i < max_files
  pub guarded : (i : ℕ) → Guards fs.perms (fs.files i)

pub fs_init-IsValid : (fs : Fs) → IsValid (fs_init fs)
unfolding fs_init
fs_init-IsValid fs = record {
  unique = λ i j n a b. absurd (ground (arith, a));
  in_table = λ i u. absurd (ground (arith, u));
  guarded = λ i n uid perm a. absurd (ground (arith, a));
}

-- An entry is written that is called what the old one was called, or nothing.
update-IsValid :
    (fs : Fs) (i count : ℕ) (f : File)
    → ((n : List ℕ) → named f n ≡ true → named (fs.files i) n ≡ true)
    → (f.used ≡ true → (fs.files i).used ≡ true)
    → f.owner_uid ≡ (fs.files i).owner_uid
    → IsValid fs
    → IsValid (record fs { files = update fs.files i f; file_count = count })
update-IsValid fs i count f names uses owner v = record {
  unique = λ a b n x y. v.unique a b n (back a n x) (back b n y);
  in_table =
      update-all (λ j g. g.used ≡ true → j < max_files) fs.files i f (λ u. v.in_table i (uses u))
        (λ j k. v.in_table j);
  guarded =
      update-all (λ j g. Guards fs.perms g) fs.files i f
        (λ n uid perm x z o. v.guarded i n uid perm (names n x) z (λ e. o (e ∙ sym owner)))
        (λ j k. v.guarded j);
}
  where
    back :
        (j : ℕ) (n : List ℕ) → named (update fs.files i f j) n ≡ true → named (fs.files j) n ≡ true
    back j n =
        update-all (λ k g. named g n ≡ true → named (fs.files k) n ≡ true) fs.files i f (names n)
          (λ k ne x. x) j

-- A name that is not in the table is not that of any file.
fresh :
    (fs : Fs) (n : List ℕ) (j : ℕ) (m : List ℕ)
    → find_file fs n ≡ none
    → IsValid fs
    → named (fs.files j) m ≡ true
    → same n m ≡ false
unfolding find_file
fresh fs n j m absent v x = elim (Bool-cases (same n m)) [
  | inr e ↦ e
  | inl e ↦
      let y : named (fs.files j) n ≡ true =
        subst (λ k. named (fs.files j) k ≡ true) (sym (same_eq n m e)) x in
      let l = v.in_table j (ground arith) in
      let w =
        find_absent max_files 0 j (λ k. named (fs.files k) n) absent (omega arith) (omega arith) in
      ground arith
]

-- A file of a name that was not there is stored, and its permission registered.
store-IsValid :
    (fs : Fs) (n bytes : List ℕ) (owner slot : ℕ)
    → take 31 n ≡ n
    → find_file fs n ≡ none
    → slot < max_files
    → IsValid fs
    → IsValid (store fs n bytes owner slot)
unfolding store find_file
store-IsValid fs n bytes owner slot short absent r v = record {
  unique = λ a b m x y. elim (Bool-cases (same n m)) [
    | inl e ↦ only a m e x ∙ sym (only b m e y)
    | inr e ↦ v.unique a b m (before a m e x) (before b m e y)
  ];
  in_table =
      update-all (λ j g. g.used ≡ true → j < max_files) fs.files slot f (λ u. r)
        (λ j k. v.in_table j);
  guarded =
      update-all (λ j g. Guards (perms_register fs.perms n owner 3) g) fs.files slot f
        (λ m uid perm x z o.
          let e : n ≡ m = same_eq n m (rw short at x) in
          rw (← e) (check_owner fs.perms n owner 3 uid perm short z o))
        (λ j k m uid perm x z o.
          check_other fs.perms n m owner 3 uid perm short (fresh fs n j m absent v x)
          ∙ v.guarded j m uid perm x z o);
}
  where
    f : File
    f = record {
      name = take 31 n;
      contents = take max_file_size bytes;
      owner_uid = owner;
      used = true;
    }

    only :
        (a : ℕ) (m : List ℕ)
        → same n m ≡ true
        → named (update fs.files slot f a) m ≡ true
        → a ≡ slot
    only a m e =
        update-all (λ k g. named g m ≡ true → k ≡ slot) fs.files slot f (λ x. refl)
          (λ k ne x. let clash = fresh fs n k m absent v x in ground arith) a

    before :
        (a : ℕ) (m : List ℕ)
        → same n m ≡ false
        → named (update fs.files slot f a) m ≡ true
        → named (fs.files a) m ≡ true
    before a m e =
        update-all (λ k g. named g m ≡ true → named (fs.files k) m ≡ true) fs.files slot f
          (λ x. let clash : same n m ≡ true = rw short at x in ground arith) (λ k ne x. x) a

-- What happens to the files: fs_create, fs_write and fs_delete, each by a user.
pub data Call : Type 0 where
  create write : List ℕ → List ℕ → ℕ → Call
  delete : List ℕ → ℕ → Call

unfoldable pub call : Fs → Call → Fs
call fs (create n bytes uid) = (fs_create fs n bytes uid).1
call fs (write n bytes uid) = (fs_write fs n bytes uid).1
call fs (delete n uid) = (fs_delete fs n uid).1

unfoldable pub calls : Fs → List Call → Fs
unfolding call
calls fs [] = fs
calls fs (c ∷ cs) = calls (call fs c) cs

-- The name has at most 31 bytes.
abbrev pub IsShort : List ℕ → Type 0
IsShort n = take 31 n ≡ n

abbrev pub ShortCall : Call → Type 0
ShortCall (create n bytes uid) = IsShort n
ShortCall (write n bytes uid) = IsShort n
ShortCall (delete n uid) = IsShort n

abbrev pub ShortCalls : List Call → Type 0
ShortCalls [] = Unit {0}
ShortCalls (c ∷ cs) = ShortCall c × ShortCalls cs

put_file-IsValid :
    (fs : Fs) (n bytes : List ℕ) (uid : ℕ)
    → IsShort n
    → IsValid fs
    → IsValid (put_file fs n bytes uid (find_file fs n)).1
unfolding put_file create_new write_old
put_file-IsValid fs n bytes uid short v = elim (Option-cases (find_file fs n)) [
  | inr (i, e) ↦ elim (Bool-cases (check_permission fs.perms n uid perm_write)) [
    | inl p ↦
        rw (e, p)
          (update-IsValid fs i fs.file_count
            (record (fs.files i) { contents = take max_file_size bytes }) (λ m x. x) (λ u. u) refl
            v)
    | inr p ↦ rw (e, p) v
  ]
  | inl e ↦ elim (Option-cases (find max_files 0 (λ i. not (fs.files i).used))) [
    | inr (i, w) ↦
        rw (e, w) (store-IsValid fs n bytes uid i short e (find_range max_files 0 i _ w).1 v)
    | inl w ↦ rw (e, w) v
  ]
]

delete-IsValid : (fs : Fs) (n : List ℕ) (uid : ℕ) → IsValid fs → IsValid (fs_delete fs n uid).1
unfolding fs_delete delete_at
delete-IsValid fs n uid v = elim (Option-cases (find_file fs n)) [
  | inr (i, e) ↦ elim (Bool-cases (check_permission fs.perms n uid perm_write)) [
    | inl p ↦
        rw (e, p)
          (update-IsValid fs i (fs.file_count - 1) (record (fs.files i) { used = false })
            (λ m x. cc) (λ u. cc) refl v)
    | inr p ↦ rw (e, p) v
  ]
  | inl e ↦ rw e v
]

call-IsValid : (fs : Fs) (c : Call) → ShortCall c → IsValid fs → IsValid (call fs c)
unfolding call fs_create fs_write
call-IsValid fs (create n bytes uid) h v = put_file-IsValid fs n bytes uid h v
call-IsValid fs (write n bytes uid) h v = put_file-IsValid fs n bytes uid h v
call-IsValid fs (delete n uid) h v = delete-IsValid fs n uid v

pub calls-IsValid : (fs : Fs) (cs : List Call) → ShortCalls cs → IsValid fs → IsValid (calls fs cs)
unfolding calls
calls-IsValid fs [] h v = v
calls-IsValid fs (c ∷ cs) h v = calls-IsValid (call fs c) cs h.1 (call-IsValid fs c h.0 v)

at_found : (fs : Fs) (n : List ℕ) (i : ℕ) → find_file fs n ≡ some i → named (fs.files i) n ≡ true
unfolding find_file
at_found fs n i e = find_passes max_files 0 i (λ j. named (fs.files j) n) e

intruder :
    (fs : Fs) (n bytes : List ℕ) (i len uid : ℕ)
    → IsValid fs
    → find_file fs n ≡ some i
    → uid ≢ 0
    → uid ≢ (fs.files i).owner_uid
    → (fs_read fs n len uid ≡ inl fs_eacces)
      × (fs_write fs n bytes uid ≡ (fs_eacces, fs))
      × (fs_create fs n bytes uid ≡ (fs_eacces, fs))
      × (fs_delete fs n uid ≡ (fs_eacces, fs))
unfolding fs_read fs_write fs_create fs_delete put_file write_old delete_at read_at
intruder fs n bytes i len uid v e z o =
    let denied = λ (perm : ℕ). v.guarded i n uid perm (at_found fs n i e) z o in
    (
      rw (e, denied perm_read) refl,
      rw (e, denied perm_write) refl,
      rw (e, denied perm_write) refl,
      rw (e, denied perm_write) refl,
    )

-- After fs_init and any calls of fs_create, fs_write and fs_delete, by any users, with names of at
-- most 31 bytes: to a user who is neither root nor the owner of a file, every operation on its
-- name says that there is no permission, and changes nothing.
pub calls_guard :
    (fs : Fs) (cs : List Call) (n bytes : List ℕ) (i len uid : ℕ)
    → ShortCalls cs
    → find_file (calls (fs_init fs) cs) n ≡ some i
    → uid ≢ 0
    → uid ≢ ((calls (fs_init fs) cs).files i).owner_uid
    → let fs' = calls (fs_init fs) cs in
      (fs_read fs' n len uid ≡ inl fs_eacces)
      × (fs_write fs' n bytes uid ≡ (fs_eacces, fs'))
      × (fs_create fs' n bytes uid ≡ (fs_eacces, fs'))
      × (fs_delete fs' n uid ≡ (fs_eacces, fs'))
calls_guard fs cs n bytes i len uid h e z o =
    intruder (calls (fs_init fs) cs) n bytes i len uid
      (calls-IsValid (fs_init fs) cs h (fs_init-IsValid fs)) e z o
