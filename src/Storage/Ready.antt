-- ===== src/Storage/Ready.antt =====
-- When the storage root is ready.
use rpi_server.Prelude.{
  ℕ, ◌≡◌, ◌≢◌, ◌≤◌, ◌↔◌, refl, sym, Bool, true, false, not, ◌&&◌, Option, none, some, [], ◌∷◌,
  if_elim, not-false, arith, ltb,
}
use rpi_server.Bytes.{Bytes}
use rpi_server.Storage.{
  ready, StorageStatus, FileSystem, is_mount_point, status_of, check_space, check_probe,
  check_index, check_recordings, check,
}

-- The storage can be used: there is a directory, on a mount point where one is required, with the
-- two directories under it, that can be written to and has the free space.
pub record IsUsable (fs : FileSystem) (root : Bytes) (min_free_bytes : ℕ)
    (require_mount_point : Bool) (available : ℕ) : Type 0 where
  pub configured : root ≢ []
  pub exists : fs.exists ≡ true
  pub is_directory : fs.is_directory ≡ true
  pub mounted : require_mount_point ≡ true → is_mount_point fs ≡ true
  pub recordings : fs.create_recordings ≡ none
  pub index : fs.create_index ≡ none
  pub writable : fs.probe_opens ≡ true
  pub queried : fs.available ≡ some available
  pub enough : min_free_bytes ≤ available

abbrev Ends : FileSystem → ℕ → StorageStatus → Type 0
Ends fs min st =
    st.state ≡ ready → (fs.available ≡ some st.available_bytes) × (min ≤ st.available_bytes)

space-Ends :
    (fs : FileSystem) (min : ℕ) (mount : Bool) (o : Option ℕ)
    → fs.available ≡ o
    → Ends fs min (check_space fs min mount o)
unfolding check_space status_of
space-Ends fs min mount none q = λ e. cc
space-Ends fs min mount (some available) q =
    if_elim (λ (st : StorageStatus). Ends fs min st) (ltb available min) (λ h e. cc)
      (λ h e. (q, ground arith))

abbrev Probed : FileSystem → ℕ → StorageStatus → Type 0
Probed fs min st =
    st.state ≡ ready
    → (fs.probe_opens ≡ true)
      × (fs.available ≡ some st.available_bytes)
      × (min ≤ st.available_bytes)

probe-Probed : (fs : FileSystem) (min : ℕ) (mount : Bool) → Probed fs min (check_probe fs min mount)
unfolding check_probe status_of
probe-Probed fs min mount =
    if_elim (λ (st : StorageStatus). Probed fs min st) (not fs.probe_opens) (λ h e. cc)
      (λ h e.
        let (queried, enough) = space-Ends fs min mount fs.available refl e in
        (not-false h, queried, enough))

index-Probed :
    (fs : FileSystem) (min : ℕ) (mount : Bool) (o : Option Bytes)
    → (check_index fs min mount o).state ≡ ready
    → (o ≡ none) × Probed fs min (check_index fs min mount o)
unfolding check_index status_of
index-Probed fs min mount none e = (refl, probe-Probed fs min mount)
index-Probed fs min mount (some m) e = cc

recordings-Probed :
    (fs : FileSystem) (min : ℕ) (mount : Bool) (o : Option Bytes)
    → (check_recordings fs min mount o).state ≡ ready
    → (o ≡ none) × (fs.create_index ≡ none) × Probed fs min (check_recordings fs min mount o)
unfolding check_recordings status_of
recordings-Probed fs min mount none e =
    let (index, probed) = index-Probed fs min mount fs.create_index e in (refl, index, probed)
recordings-Probed fs min mount (some m) e = cc

mount_required :
    (mount require : Bool) → (not mount && require) ≡ false → require ≡ true → mount ≡ true
mount_required true require h r = refl
mount_required false require h r = cc

mount_ok : (mount require : Bool) → (require ≡ true → mount ≡ true) → (not mount && require) ≡ false
mount_ok true require f = refl
mount_ok false true f = sym (f refl)
mount_ok false false f = refl

forward :
    (fs : FileSystem) (root : Bytes) (min : ℕ) (require : Bool)
    → (check fs root min require).state ≡ ready
    → IsUsable fs root min require (check fs root min require).available_bytes
unfolding check status_of
forward fs [] min require = λ e. cc
forward fs (c ∷ root) min require =
    let P = λ (st : StorageStatus).
      st.state ≡ ready → IsUsable fs (c ∷ root) min require st.available_bytes in
    if_elim P (not fs.exists) (λ h e. cc)
      (λ there.
        if_elim P (not fs.is_directory) (λ h e. cc)
          (λ directory.
            if_elim P (not (is_mount_point fs) && require) (λ h e. cc)
              (λ mounted e.
                let (recordings, index, probed) =
                  recordings-Probed fs min (is_mount_point fs) fs.create_recordings e in
                let (writable, queried, enough) = probed e in
                record {
                  configured = λ q. cc;
                  exists = not-false there;
                  is_directory = not-false directory;
                  mounted = mount_required (is_mount_point fs) require mounted;
                  recordings = recordings;
                  index = index;
                  writable = writable;
                  queried = queried;
                  enough = enough;
                })))

backward :
    (fs : FileSystem) (root : Bytes) (min : ℕ) (require : Bool) (available : ℕ)
    → IsUsable fs root min require available
    → (check fs root min require).state ≡ ready
unfolding check status_of check_recordings check_index check_probe check_space
backward fs [] min require available u = absurd (u.configured refl)
backward fs (c ∷ root) min require available u =
    rw
      (
        u.exists,
        u.is_directory,
        mount_ok (is_mount_point fs) require u.mounted,
        u.recordings,
        u.index,
        u.writable,
        u.queried,
      )
      (if_elim (λ (st : StorageStatus). st.state ≡ ready) (ltb available min)
        (λ h. absurd (ground (arith, u.enough))) (λ h. refl))

-- `check` says that the storage is ready exactly where it is usable, with the free space that the
-- file system gave.
pub check-ready_iff :
    (fs : FileSystem) (root : Bytes) (min_free_bytes : ℕ) (require_mount_point : Bool)
    → ((check fs root min_free_bytes require_mount_point).state ≡ ready)
      ↔ IsUsable fs root min_free_bytes require_mount_point
          (check fs root min_free_bytes require_mount_point).available_bytes
unfolding check
check-ready_iff fs root min require = (forward fs root min require, backward fs root min require _)
