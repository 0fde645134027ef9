-- ===== src/Arrays/Mapping/Exclusive.antt =====
-- Exclusive access: a volume that is mapped already is not mapped again.
use ibm_block_csi_driver.Prelude.{◌≡◌, true, String, ◌∷◌, Dict, arith}
use ibm_block_csi_driver.Errors.{Exception}
use ibm_block_csi_driver.Outcome.{returned, raised}
use ibm_block_csi_driver.Requests.Nodes.{Initiators}
use ibm_block_csi_driver.Arrays.Mediator.{ArrayMediator}
use ibm_block_csi_driver.Arrays.Mapping.{map_once}

module _ {S : Type 0} (m : ArrayMediator S) (vol_id : String) (initiators : Initiators) where
  -- With exclusive access, a volume that is mapped to two hosts or more is refused with
  -- VolumeAlreadyMappedToDifferentHostsError as soon as the mappings are read, and nothing changes
  -- after that.
  map_once-several :
      (a b : String × String) (mappings : Dict String) (s t : S)
      → m.get_volume_mappings vol_id s ≡ (returned (a ∷ b ∷ mappings), t)
      → map_once m vol_id initiators true s
        ≡ (raised Exception.volume_already_mapped_to_different_hosts, t)
  unfolding map_once
  map_once-several a b mappings s t h = ground arith
