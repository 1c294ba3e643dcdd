-- ===== src/Kernel/Files/Tests.antt =====
-- A small file system, and the theorems of kernel/filesystem.c at it.
use oxalyn.Kernel.Search.{find, same}
use oxalyn.Base.{update, ℕ, ◌≡◌, ◌≢◌, refl, false, List, [], ◌∷◌, ◌⊎◌, inl, some, take, arith}
use oxalyn.Base.Int.{pos}
use oxalyn.Kernel.Files.{
  Fs, find_file, fs_init, fs_create, fs_write, fs_read, fs_delete, fs_eacces, fs_enoent, fs_enospc,
  max_file_size,
}
use oxalyn.Kernel.Files.Contents.{Puts, holding, IsUnique, fs_read-fs_write, fs_read-fs_delete}
use oxalyn.Kernel.Files.Access.{create, calls, call, calls_guard, calls-IsValid, fs_init-IsValid}

abbrev no_files : Fs
no_files = record {
  files = λ i. record { name = []; contents = []; owner_uid = 0; used = false };
  file_count = 0;
  perms = λ i. record { resource = []; owner_uid = 0; perms = 0; used = false };
}

-- "a" with the contents "hi", of the user 7.
abbrev a : List ℕ
a = 97 ∷ []

abbrev hi : List ℕ
hi = 104 ∷ 105 ∷ []

abbrev with_a : Fs
with_a = calls (fs_init no_files) (create a hi 7 ∷ [])

fs_read-fs_write_example :
    let (code, fs') = fs_write with_a a hi 7 in
    ((code ≡ pos 0) × Puts with_a fs' a (holding fs' a (take max_file_size hi)))
    ⊎ (((code ≡ fs_eacces) ⊎ (code ≡ fs_enospc)) × (fs' ≡ with_a))
fs_read-fs_write_example = fs_read-fs_write with_a a hi 7 refl

with_a-IsUnique : IsUnique with_a
with_a-IsUnique =
    (calls-IsValid (fs_init no_files) (create a hi 7 ∷ []) (refl, tt)
      (fs_init-IsValid no_files)).unique

fs_read-fs_delete_example :
    let (code, fs') = fs_delete with_a a 7 in
    ((code ≡ pos 0) × Puts with_a fs' a (λ len u. inl fs_enoent))
    ⊎ (((code ≡ fs_eacces) ⊎ (code ≡ fs_enoent)) × (fs' ≡ with_a))
fs_read-fs_delete_example = fs_read-fs_delete with_a a 7 with_a-IsUnique

found_a : find_file with_a a ≡ some 0
unfolding find_file calls call fs_create fs_init find update same
found_a = refl

owner_a : 8 ≢ (with_a.files 0).owner_uid
unfolding calls call fs_create fs_init find update same
owner_a e = let n : ◌≡◌ {A = ℕ} 8 7 = e in omega arith

calls_guard_example :
    (fs_read with_a a 9 8 ≡ inl fs_eacces)
    × (fs_write with_a a hi 8 ≡ (fs_eacces, with_a))
    × (fs_create with_a a hi 8 ≡ (fs_eacces, with_a))
    × (fs_delete with_a a 8 ≡ (fs_eacces, with_a))
calls_guard_example =
    calls_guard no_files (create a hi 7 ∷ []) a hi 0 9 8 (refl, tt) found_a (λ e. omega arith)
      owner_a
