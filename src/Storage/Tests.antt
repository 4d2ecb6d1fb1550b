-- ===== src/Storage/Tests.antt =====
-- A check of a storage root at a concrete file system.
use rpi_server.Prelude.{◌≡◌, ◌↔◌, refl, true, none, some, []}
use rpi_server.Bytes.{Bytes, codes}
use rpi_server.Storage.{FileSystem, ready, full, check}
use rpi_server.Storage.Ready.{IsUsable, check-ready_iff}

abbrev root : Bytes
root = codes "/mnt/vms-storage"

abbrev mounted : FileSystem
mounted = record {
  exists = true;
  is_directory = true;
  canonical = some root;
  parent_path = λ path. codes "/mnt";
  stat = λ path. some (record { st_dev = 1; st_ino = 2 });
  create_recordings = none;
  create_index = none;
  probe_opens = true;
  available = some 5000;
  space_message = [];
}

ready_and_full :
    ((check mounted root 5000 true).state ≡ ready) × ((check mounted root 5001 true).state ≡ full)
unfolding check
ready_and_full = (refl, refl)

check-ready_iff_example :
    ((check mounted root 5000 true).state ≡ ready)
    ↔ IsUsable mounted root 5000 true (check mounted root 5000 true).available_bytes
check-ready_iff_example = check-ready_iff mounted root 5000 true
