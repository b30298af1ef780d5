-- ===== src/VirtualServer/Domain/Mount.antt =====
-- virtualserver/domain/volume.go: the state of a mount. `other` stands for the strings that are no
-- constant of the file.
use ocelot.Prelude.{String}

pub data VolumeMountState : Type 0 where
  pending active releasing released failed : VolumeMountState
  other : String → VolumeMountState
