-- ===== src/Tests/Stores/Volumes.antt =====
-- virtualserver/store/volume_store.go: one volume.
use ocelot.Prelude.{◌≡◌, refl, true, [], ◌∷◌, is_some, any, string_eq}
use ocelot.Prelude.Map.{lookup}
use ocelot.VirtualServer.Domain.Mount.{VolumeMountState}
use ocelot.VirtualServer.Domain.Volume.{VolumeState}
use ocelot.VirtualServer.Store.Volumes.{Volume, Tables, bind_mount, delete_volume, has_instance}
use ocelot.VirtualServer.Store.Volumes.History.{
  IsValid, run, marks, releases, mounted_never_deleted,
}

abbrev volume_in : VolumeState → Volume
volume_in s = record {
  namespace = "a";
  name = "b";
  state = s;
  bound_node_id = "";
  failure_reason = "";
  created_at = 1;
  updated_at = 1;
}

abbrev tables_in : VolumeState → Tables
tables_in s = record {
  volumes = ("v", volume_in s) ∷ [];
  instances = "i" ∷ [];
  mounts = [];
  next_mount_id = 1;
}

tables-IsValid : IsValid (tables_in VolumeState.ready)
unfolding lookup
tables-IsValid = record { unused = λ k h. refl }

abbrev bound : Tables
bound = (bind_mount "v" "i" "/data" true (tables_in VolumeState.ready)).0

mounted_never_deleted_example :
    (is_some
        (delete_volume "v"
          (run (marks 1 VolumeMountState.released 5 ∷ releases "v" 6 ∷ []) bound)).1
      ≡ true)
    × ((delete_volume "v" (run (marks 1 VolumeMountState.released 5 ∷ releases "v" 6 ∷ []) bound)).0
        ≡ run (marks 1 VolumeMountState.released 5 ∷ releases "v" 6 ∷ []) bound)
unfolding bind_mount has_instance lookup any
mounted_never_deleted_example =
    mounted_never_deleted "v" "i" "/data" true 1
      (marks 1 VolumeMountState.released 5 ∷ releases "v" 6 ∷ []) (tables_in VolumeState.ready)
      tables-IsValid refl
