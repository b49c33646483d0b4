-- ===== src/Build/Devices/Tests.antt =====
-- The search for devices of src/build.rs on a directory that contains itself, and the theorem at it.
use kernel_pop.Prelude.{some, List, [], ◌∷◌, ◌≡◌, refl, ◌↔◌, Elem}
use kernel_pop.Text.{Text, codes}
use kernel_pop.Build.Devices.{
  Sys, directory, file, symlink, collect_modaliases, sys_devices, present_device_modules,
}
use kernel_pop.Build.Devices.Collected.{IsAlias, collect_modaliases-IsAlias}

abbrev cyclic : Sys
cyclic = record {
  read_dir = λ dir. some (
      record { name = codes "modalias"; kind = some file }
      ∷ record { name = codes "again"; kind = some directory }
      ∷ record { name = codes "modalias"; kind = some symlink }
      ∷ []);
  read = λ path. some (codes "pci:v1\n");
}

found : collect_modaliases 26 cyclic sys_devices [] 0 ≡ some (codes "pci:v1" ∷ [])
unfolding collect_modaliases
found = refl

modules :
    present_device_modules (λ t. some (codes "nvme-core\n\nxhci\n")) cyclic
    ≡ some (codes "nvme_core" ∷ codes "xhci" ∷ [])
unfolding present_device_modules
modules = refl

collect_modaliases-IsAlias_example :
    (l : List Text) × (collect_modaliases 26 cyclic sys_devices [] 0 ≡ some l)
    × ((t : Text) → Elem t l ↔ IsAlias cyclic 25 sys_devices t)
collect_modaliases-IsAlias_example = collect_modaliases-IsAlias cyclic sys_devices
