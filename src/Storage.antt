-- ===== src/Storage.antt =====
-- src/storage/storage_manager.cpp, include/rtsps/storage_manager.h: the check of the storage root.
-- What the file system answers is a record; an `std::error_code` is an `Option`, of its message
-- where that is used.
pub mod Ready
mod Tests
use rpi_server.Prelude.{
  ℕ, Bool, true, false, not, ◌&&◌, ◌||◌, Option, none, some, List, [], ◌∷◌, ◌++◌, ltb, ◌==◌,
  if◌then◌else◌,
}
use rpi_server.Bytes.{Bytes, codes, equal}

pub data StorageState : Type 0 where
  unconfigured missing checking ready read_only full error : StorageState

unfoldable pub to_string : StorageState → Bytes
to_string unconfigured = codes "unconfigured"
to_string missing = codes "missing"
to_string checking = codes "checking"
to_string ready = codes "ready"
to_string read_only = codes "read_only"
to_string full = codes "full"
to_string error = codes "error"

pub record StorageStatus : Type 0 where
  pub state : StorageState
  pub message : Bytes
  pub available_bytes : ℕ
  pub is_mount_point : Bool

-- The device and the inode that `stat` gives.
pub record Stat : Type 0 where
  pub st_dev : ℕ
  pub st_ino : ℕ

-- The answers of the file system in the course of one check.
pub record FileSystem : Type 0 where
  pub exists : Bool
  pub is_directory : Bool
  pub canonical : Option Bytes
  pub parent_path : Bytes → Bytes
  pub stat : Bytes → Option Stat
  pub create_recordings : Option Bytes
  pub create_index : Option Bytes
  pub probe_opens : Bool
  pub available : Option ℕ
  pub space_message : Bytes

on_own_device : Option Stat → Option Stat → Bool
on_own_device (some path) (some parent) =
    not (path.st_dev == parent.st_dev) || path.st_ino == parent.st_ino
on_own_device _ _ = false

is_empty : Bytes → Bool
is_empty [] = true
is_empty (c ∷ s) = false

mount_point_at : FileSystem → Option Bytes → Bool
unfolding on_own_device is_empty equal
mount_point_at fs none = false
mount_point_at fs (some path) =
    if is_empty (fs.parent_path path) || equal (fs.parent_path path) path
    then true
    else on_own_device (fs.stat path) (fs.stat (fs.parent_path path))

unfoldable pub is_mount_point : FileSystem → Bool
unfolding mount_point_at
is_mount_point fs = mount_point_at fs fs.canonical

unfoldable pub status_of : StorageState → Bytes → ℕ → Bool → StorageStatus
status_of state message available mount = record {
  state = state;
  message = message;
  available_bytes = available;
  is_mount_point = mount;
}

-- The query of the free space, the last step.
unfoldable pub check_space : FileSystem → ℕ → Bool → Option ℕ → StorageStatus
unfolding status_of
check_space fs min_free_bytes mount none =
    status_of error (codes "failed to query free space: " ++ fs.space_message) 0 mount
check_space fs min_free_bytes mount (some available) =
    if ltb available min_free_bytes
    then status_of full (codes "storage free space is below threshold") available mount
    else status_of ready (codes "storage ready") available mount

unfoldable pub check_probe : FileSystem → ℕ → Bool → StorageStatus
unfolding check_space status_of
check_probe fs min_free_bytes mount =
    if not fs.probe_opens
    then status_of read_only (codes "storage root is not writable") 0 mount
    else check_space fs min_free_bytes mount fs.available

-- The two directories; `some` is the message of a failure.
unfoldable pub check_index : FileSystem → ℕ → Bool → Option Bytes → StorageStatus
unfolding check_probe status_of
check_index fs min_free_bytes mount (some message) =
    status_of read_only (codes "failed to create index directory: " ++ message) 0 mount
check_index fs min_free_bytes mount none = check_probe fs min_free_bytes mount

unfoldable pub check_recordings : FileSystem → ℕ → Bool → Option Bytes → StorageStatus
unfolding check_index status_of
check_recordings fs min_free_bytes mount (some message) =
    status_of read_only (codes "failed to create recordings directory: " ++ message) 0 mount
check_recordings fs min_free_bytes mount none = check_index fs min_free_bytes mount fs.create_index

unfoldable pub check : FileSystem → Bytes → ℕ → Bool → StorageStatus
unfolding check_recordings is_mount_point status_of
check fs [] min_free_bytes require_mount_point =
    status_of unconfigured (codes "storage root is empty") 0 false
check fs (c ∷ root) min_free_bytes require_mount_point =
    if not fs.exists
    then status_of missing (codes "storage root does not exist: " ++ (c ∷ root)) 0 false
    else if not fs.is_directory
    then status_of error (codes "storage root is not a directory: " ++ (c ∷ root)) 0 false
    else if not (is_mount_point fs) && require_mount_point
    then status_of error
        (codes "storage root is not a mount point; writes may go to the OS filesystem") 0 false
    else check_recordings fs min_free_bytes (is_mount_point fs) fs.create_recordings
