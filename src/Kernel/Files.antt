-- ===== src/Kernel/Files.antt =====
-- kernel/filesystem.c: the flat file system, in the build without the GUI renderer. A name is the
-- list of its bytes, the contents of a file are its first `size` bytes, and `data` with `size` is
-- the list of the bytes to store. A user is the 32-bit pattern of the `int`.
pub mod Contents
pub mod Access
mod Tests
use oxalyn.Base.{
  ℕ, zero, suc, ◌+◌, ◌-◌, ◌&&◌, Bool, true, false, not, Option, none, some, List, [], ◌∷◌, ◌⊎◌, inl,
  inr, ◌==◌, if◌then◌else◌, update, take,
}
use oxalyn.Base.Int.{ℤ, pos, negsuc}
use oxalyn.Kernel.Search.{same, find}
use oxalyn.Kernel.Perms.{Perms, perms_register, check_permission, perm_read, perm_write}

abbrev pub max_files : ℕ
max_files = 32

abbrev pub max_file_size : ℕ
max_file_size = 4096

abbrev pub fs_enospc : ℤ
fs_enospc = negsuc 0

abbrev pub fs_enoent : ℤ
fs_enoent = negsuc 1

abbrev pub fs_eacces : ℤ
fs_eacces = negsuc 2

pub record File : Type 0 where
  pub name : List ℕ
  pub contents : List ℕ
  pub owner_uid : ℕ
  pub used : Bool

pub record Fs : Type 0 where
  pub files : ℕ → File
  pub file_count : ℕ
  pub perms : Perms

unfoldable pub fs_init : Fs → Fs
fs_init fs = record fs { files = λ i. record (fs.files i) { used = false }; file_count = 0 }

abbrev pub named : File → List ℕ → Bool
named f n = f.used && same f.name n

unfoldable pub find_file : Fs → List ℕ → Option ℕ
find_file fs n = find max_files 0 (λ i. named (fs.files i) n)

unfoldable pub fs_exists : Fs → List ℕ → Bool
unfolding find_file
fs_exists fs n = elim (find_file fs n) [ none ↦ false | some i ↦ true ]

-- fs_create once there is a slot: 31 bytes of the name are kept.
unfoldable pub store : Fs → List ℕ → List ℕ → ℕ → ℕ → Fs
store fs n bytes owner slot = record fs {
  files = update fs.files slot (record {
    name = take 31 n;
    contents = take max_file_size bytes;
    owner_uid = owner;
    used = true;
  });
  file_count = fs.file_count + 1;
  perms = perms_register fs.perms n owner 3;
}

-- fs_create of a name that is not in the table.
unfoldable pub create_new : Fs → List ℕ → List ℕ → ℕ → Option ℕ → ℤ × Fs
unfolding store
create_new fs n bytes owner none = (fs_enospc, fs)
create_new fs n bytes owner (some slot) = (pos 0, store fs n bytes owner slot)

-- fs_write of a name that is in the table.
unfoldable pub write_old : Fs → List ℕ → List ℕ → ℕ → ℕ → ℤ × Fs
write_old fs n bytes uid i =
    if check_permission fs.perms n uid perm_write
    then (
      pos 0,
      record fs {
        files = update fs.files i (record (fs.files i) { contents = take max_file_size bytes });
      },
    )
    else (fs_eacces, fs)

-- fs_create and fs_write call one another: a name that is there is written, another is created.
unfoldable pub put_file : Fs → List ℕ → List ℕ → ℕ → Option ℕ → ℤ × Fs
unfolding create_new write_old
put_file fs n bytes uid (some i) = write_old fs n bytes uid i
put_file fs n bytes uid none =
    create_new fs n bytes uid (find max_files 0 (λ i. not (fs.files i).used))

unfoldable pub fs_create : Fs → List ℕ → List ℕ → ℕ → ℤ × Fs
unfolding put_file find_file
fs_create fs n bytes owner = put_file fs n bytes owner (find_file fs n)

unfoldable pub fs_write : Fs → List ℕ → List ℕ → ℕ → ℤ × Fs
unfolding put_file find_file
fs_write fs n bytes uid = put_file fs n bytes uid (find_file fs n)

-- The bytes that reach the caller's buffer, or the error.
unfoldable pub read_at : Fs → List ℕ → ℕ → ℕ → Option ℕ → ℤ ⊎ List ℕ
read_at fs n len uid none = inl fs_enoent
read_at fs n len uid (some i) =
    if check_permission fs.perms n uid perm_read
    then inr (take len (fs.files i).contents)
    else inl fs_eacces

unfoldable pub fs_read : Fs → List ℕ → ℕ → ℕ → ℤ ⊎ List ℕ
unfolding read_at find_file
fs_read fs n len uid = read_at fs n len uid (find_file fs n)

unfoldable pub delete_at : Fs → List ℕ → ℕ → Option ℕ → ℤ × Fs
delete_at fs n uid none = (fs_enoent, fs)
delete_at fs n uid (some i) =
    if check_permission fs.perms n uid perm_write
    then (
      pos 0,
      record fs {
        files = update fs.files i (record (fs.files i) { used = false });
        file_count = fs.file_count - 1;
      },
    )
    else (fs_eacces, fs)

unfoldable pub fs_delete : Fs → List ℕ → ℕ → ℤ × Fs
unfolding delete_at find_file
fs_delete fs n uid = delete_at fs n uid (find_file fs n)

unfoldable pub fs_count : Fs → ℕ
fs_count fs = fs.file_count
