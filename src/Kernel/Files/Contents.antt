-- ===== src/Kernel/Files/Contents.antt =====
-- What a file reads as after a write and after a deletion.
use oxalyn.Base.{
  ℕ, ◌-◌, ◌≡◌, ◌≢◌, refl, sym, ap, ◌∙◌, subst, true, false, not, none, some, List, ◌⊎◌, inl, inr,
  if◌then◌else◌, update, update_self, update-ne, take, arith, Bool-cases, Option-cases,
}
use oxalyn.Base.Int.{ℤ, pos}
use oxalyn.Kernel.Search.{same, find}
use oxalyn.Kernel.Search.Laws.{
  apart, same_self, same_eq, find_passes, find_range, find_in, find_in-update, find_in_new,
  find_in_dropped,
}
use oxalyn.Kernel.Perms.{check_permission, perm_read, perm_write}
use oxalyn.Kernel.Perms.Policy.{check_other}
use oxalyn.Kernel.Files.{
  File, Fs, max_files, max_file_size, fs_eacces, fs_enoent, fs_enospc, named, find_file, store,
  create_new, write_old, put_file, fs_write, fs_read, read_at, fs_delete, delete_at,
}

-- No two files have the same name.
abbrev pub IsUnique : Fs → Type 0
IsUnique fs =
    (i j : ℕ) (n : List ℕ) → named (fs.files i) n ≡ true → named (fs.files j) n ≡ true → i ≡ j

-- The reading of the name `m` is the same in both states, for everyone.
abbrev pub SameReads : Fs → Fs → List ℕ → Type 0
SameReads fs fs' m = (len uid : ℕ) → fs_read fs' m len uid ≡ fs_read fs m len uid

-- Everyone who may read the name `n` reads `bytes`.
abbrev pub Reads : Fs → List ℕ → List ℕ → Type 0
Reads fs n bytes =
    (len uid : ℕ)
    → fs_read fs n len uid
      ≡ (if check_permission fs.perms n uid perm_read then inr (take len bytes) else inl fs_eacces)

holding_at :
    (fs : Fs) (n bytes : List ℕ) (i : ℕ)
    → find_file fs n ≡ some i
    → (fs.files i).contents ≡ bytes
    → Reads fs n bytes
unfolding fs_read
holding_at fs n bytes i e c len uid = rw (e, read_at, c) refl

missing :
    (fs : Fs) (n : List ℕ) (len uid : ℕ)
    → find_file fs n ≡ none
    → fs_read fs n len uid ≡ inl fs_enoent
unfolding fs_read
missing fs n len uid e = rw (e, read_at) refl

-- The state `fs'` differs from `fs` in the entry `i`, which does not hold the name `m`, and the
-- permissions of `m` are the same.
elsewhere :
    (fs fs' : Fs) (m : List ℕ) (i : ℕ) (f : File)
    → fs'.files ≡ update fs.files i f
    → named f m ≡ named (fs.files i) m
    → ((k : ℕ) → find_file fs m ≡ some k → (update fs.files i f k).contents ≡ (fs.files k).contents)
    → ((uid : ℕ)
        → check_permission fs'.perms m uid perm_read ≡ check_permission fs.perms m uid perm_read)
    → SameReads fs fs' m
unfolding fs_read find_file
elsewhere fs fs' m i f e h keeps p len uid =
    let found : find_file fs' m ≡ find_file fs m =
      ap (λ t. find_in named max_files t m) e ∙ find_in-update named max_files fs.files i f m h in
    elim (Option-cases (find_file fs m)) [
      | inl w ↦ rw (found, w, read_at) refl
      | inr (k, w) ↦ rw (found, w, read_at, p uid, e, keeps k w) refl
    ]

-- `fs'` answers for the name `n` as `answer` says, and for all other names as `fs`.
abbrev pub Puts : Fs → Fs → List ℕ → (ℕ → ℕ → ℤ ⊎ List ℕ) → Type 0
Puts fs fs' n answer =
    (m : List ℕ) (len uid : ℕ)
    → fs_read fs' m len uid ≡ (if same n m then answer len uid else fs_read fs m len uid)

puts :
    (fs fs' : Fs) (n : List ℕ) (answer : ℕ → ℕ → ℤ ⊎ List ℕ)
    → ((len uid : ℕ) → fs_read fs' n len uid ≡ answer len uid)
    → ((m : List ℕ) → same n m ≡ false → SameReads fs fs' m)
    → Puts fs fs' n answer
puts fs fs' n answer own others m len uid = elim (Bool-cases (same n m)) [
  | inl e ↦
      simp e (subst (λ x. fs_read fs' x len uid ≡ answer len uid) (same_eq n m e) (own len uid))
  | inr e ↦ simp e (others m e len uid)
]

-- Everyone who may read the name reads `bytes`.
abbrev pub holding : Fs → List ℕ → List ℕ → ℕ → ℕ → ℤ ⊎ List ℕ
holding fs n bytes len uid =
    if check_permission fs.perms n uid perm_read then inr (take len bytes) else inl fs_eacces

-- The entry under the name `n` is not the one under another.
other_entry :
    (fs : Fs) (n m : List ℕ) (i k : ℕ)
    → named (fs.files i) n ≡ true
    → same n m ≡ false
    → find_file fs m ≡ some k
    → k ≢ i
unfolding find_file
other_entry fs n m i k h ne e q =
    let at_k = find_passes max_files 0 k (λ j. named (fs.files j) m) e in
    let at_i : named (fs.files i) m ≡ true = subst (λ j. named (fs.files j) m ≡ true) q at_k in
    let one : (fs.files i).name ≡ n = same_eq (fs.files i).name n (ground arith) in
    let two : same n m ≡ true = rw (← one) (ground arith) in ground arith

name_apart : (f : File) (n m : List ℕ) → named f n ≡ true → same n m ≡ false → named f m ≡ false
name_apart f n m h ne =
    let one : f.name ≡ n = same_eq f.name n (ground arith) in rw one (ground arith)

write_old-Puts :
    (fs : Fs) (n bytes : List ℕ) (uid i : ℕ)
    → find_file fs n ≡ some i
    → check_permission fs.perms n uid perm_write ≡ true
    → Puts fs
        (write_old fs n bytes uid i).1
        n
        (holding (write_old fs n bytes uid i).1 n (take max_file_size bytes))
unfolding write_old find_file
write_old-Puts fs n bytes uid i e p =
    let f = record (fs.files i) { contents = take max_file_size bytes } in
    let fs' = record fs { files = update fs.files i f } in
    let here = find_passes max_files 0 i (λ j. named (fs.files j) n) e in
    let found : find_file fs' n ≡ some i = find_in-update named max_files fs.files i f n refl ∙ e in
    rw p (
      puts fs fs' n _
        (holding_at fs' n (take max_file_size bytes) i found
          (ap (λ (x : File). x.contents) (update_self fs.files i f)))
        (λ m ne.
          elsewhere fs fs' m i f refl refl
            (λ k w.
              ap (λ (x : File). x.contents)
                (update-ne fs.files i f k (other_entry fs n m i k here ne w)))
            (λ u. refl)))

store-Puts :
    (fs : Fs) (n bytes : List ℕ) (owner slot : ℕ)
    → take 31 n ≡ n
    → find_file fs n ≡ none
    → find max_files 0 (λ i. not (fs.files i).used) ≡ some slot
    → Puts fs
        (store fs n bytes owner slot)
        n
        (holding (store fs n bytes owner slot) n (take max_file_size bytes))
unfolding store find_file
store-Puts fs n bytes owner slot short absent e =
    let f : File = record {
      name = take 31 n;
      contents = take max_file_size bytes;
      owner_uid = owner;
      used = true;
    } in
    let fs' = store fs n bytes owner slot in
    let vacant : not (fs.files slot).used ≡ true =
      find_passes max_files 0 slot (λ i. not (fs.files i).used) e in
    let range = find_range max_files 0 slot (λ i. not (fs.files i).used) e in
    let holds : named f n ≡ true = rw short (same_self n) in
    let found : find_file fs' n ≡ some slot =
      find_in_new named max_files fs.files slot f n range.1 absent holds in
    puts fs fs' n _
      (holding_at fs' n (take max_file_size bytes) slot found
        (ap (λ (x : File). x.contents) (update_self fs.files slot f)))
      (λ m ne.
        let old : named (fs.files slot) m ≡ false = ground arith in
        elsewhere fs fs' m slot f refl (rw (short, ne) (sym old))
          (λ k w.
            ap (λ (x : File). x.contents)
              (update-ne fs.files slot f k (
                apart (λ j. named (fs.files j) m) k slot
                  (find_passes max_files 0 k (λ j. named (fs.files j) m) w) old)))
          (λ u. check_other fs.perms n m owner 3 u perm_read short ne))

delete-Puts :
    (fs : Fs) (n : List ℕ) (uid i : ℕ)
    → IsUnique fs
    → find_file fs n ≡ some i
    → check_permission fs.perms n uid perm_write ≡ true
    → Puts fs (delete_at fs n uid (some i)).1 n (λ len u. inl fs_enoent)
unfolding delete_at find_file
delete-Puts fs n uid i unique e p =
    let f = record (fs.files i) { used = false } in
    let fs' = record fs { files = update fs.files i f; file_count = fs.file_count - 1 } in
    let here = find_passes max_files 0 i (λ j. named (fs.files j) n) e in
    let gone : find_file fs' n ≡ none = find_in_dropped named max_files fs.files i f n refl λ j ne.
      elim (Bool-cases (named (fs.files j) n)) [
        | inl t ↦ absurd (ne (unique j i n t here))
        | inr t ↦ t
      ] in
    rw p (
      puts fs fs' n _ (λ len u. missing fs' n len u gone)
        (λ m ne.
          elsewhere fs fs' m i f refl (sym (name_apart (fs.files i) n m here ne))
            (λ k w.
              ap (λ (x : File). x.contents)
                (update-ne fs.files i f k (other_entry fs n m i k here ne w)))
            (λ u. refl)))

write_old-code :
    (fs : Fs) (n bytes : List ℕ) (uid i : ℕ)
    → check_permission fs.perms n uid perm_write ≡ true
    → (write_old fs n bytes uid i).0 ≡ pos 0
unfolding write_old
write_old-code fs n bytes uid i p = rw p refl

write_old-denied :
    (fs : Fs) (n bytes : List ℕ) (uid i : ℕ)
    → check_permission fs.perms n uid perm_write ≡ false
    → (((write_old fs n bytes uid i).0 ≡ fs_eacces) ⊎ ((write_old fs n bytes uid i).0 ≡ fs_enospc))
      × ((write_old fs n bytes uid i).1 ≡ fs)
unfolding write_old
write_old-denied fs n bytes uid i p = rw p (inl refl, refl)

delete-code :
    (fs : Fs) (n : List ℕ) (uid i : ℕ)
    → check_permission fs.perms n uid perm_write ≡ true
    → (delete_at fs n uid (some i)).0 ≡ pos 0
unfolding delete_at
delete-code fs n uid i p = rw p refl

delete-denied :
    (fs : Fs) (n : List ℕ) (uid i : ℕ)
    → check_permission fs.perms n uid perm_write ≡ false
    → (((delete_at fs n uid (some i)).0 ≡ fs_eacces)
        ⊎ ((delete_at fs n uid (some i)).0 ≡ fs_enoent))
      × ((delete_at fs n uid (some i)).1 ≡ fs)
unfolding delete_at
delete-denied fs n uid i p = rw p (inl refl, refl)

-- fs_write of a name of at most 31 bytes either succeeds, and then whoever may read
-- the name reads the first 4096 of the bytes given, and every other name reads as before, for
-- everyone; or it says that there is no permission or no space, and nothing has changed.
pub fs_read-fs_write :
    (fs : Fs) (n bytes : List ℕ) (uid : ℕ)
    → take 31 n ≡ n
    → let (code, fs') = fs_write fs n bytes uid in
      ((code ≡ pos 0) × Puts fs fs' n (holding fs' n (take max_file_size bytes)))
      ⊎ (((code ≡ fs_eacces) ⊎ (code ≡ fs_enospc)) × (fs' ≡ fs))
unfolding fs_write put_file create_new
fs_read-fs_write fs n bytes uid short = elim (Option-cases (find_file fs n)) [
  | inr (i, e) ↦ elim (Bool-cases (check_permission fs.perms n uid perm_write)) [
    | inl p ↦ rw e (inl (write_old-code fs n bytes uid i p, write_old-Puts fs n bytes uid i e p))
    | inr p ↦ rw e (inr (write_old-denied fs n bytes uid i p))
  ]
  | inl e ↦ elim (Option-cases (find max_files 0 (λ i. not (fs.files i).used))) [
    | inr (i, v) ↦ rw (e, v) (inl (refl, store-Puts fs n bytes uid i short e v))
    | inl v ↦ rw (e, v) (inr (inr refl, refl))
  ]
]

-- With no two files of one name, fs_delete either succeeds, and then the name is not found by
-- anyone, and every other name reads as before; or it says that there is no such file or no
-- permission, and nothing has changed.
pub fs_read-fs_delete :
    (fs : Fs) (n : List ℕ) (uid : ℕ)
    → IsUnique fs
    → let (code, fs') = fs_delete fs n uid in
      ((code ≡ pos 0) × Puts fs fs' n (λ len u. inl fs_enoent))
      ⊎ (((code ≡ fs_eacces) ⊎ (code ≡ fs_enoent)) × (fs' ≡ fs))
unfolding fs_delete
fs_read-fs_delete fs n uid unique = elim (Option-cases (find_file fs n)) [
  | inr (i, e) ↦ elim (Bool-cases (check_permission fs.perms n uid perm_write)) [
    | inl p ↦ rw e (inl (delete-code fs n uid i p, delete-Puts fs n uid i unique e p))
    | inr p ↦ rw e (inr (delete-denied fs n uid i p))
  ]
  | inl e ↦ rw (e, delete_at) (inr (inr refl, refl))
]
