-- ===== src/Arrays/Svc/Rollback.antt =====
-- controllers/array_action/array_mediator_svc.py: what is left when the creation of a volume from a
-- snapshot fails halfway.
use ibm_block_csi_driver.Prelude.{◌≡◌, false, Option, String, arith}
use ibm_block_csi_driver.Errors.{Exception}
use ibm_block_csi_driver.Outcome.{Outcome, returned, raised}
use ibm_block_csi_driver.Exec.{Exec}
use ibm_block_csi_driver.Arrays.Svc.{SvcClient}
use ibm_block_csi_driver.Arrays.Svc.Kwargs.{build_create_volume_in_volume_group_kwargs}
use ibm_block_csi_driver.Arrays.Svc.VolumeGroups.{mkvolumegroup, fix_creation_side_effects}
use ibm_block_csi_driver.Arrays.Svc.Creation.{finally}
use ibm_block_csi_driver.Arrays.Svc.Clones.{
  is_rolled_back, get_cli_volume_id_from_volume_group, create_cli_volume_from_snapshot,
}

module _ {S : Type 0} (client : SvcClient S) (name pool : String)
    (io_group volume_group : Option String) (source_id id : String) (s s1 s2 s3 u t : S)
    (e : Exception)
    (made : mkvolumegroup client name
        (build_create_volume_in_volume_group_kwargs pool io_group source_id)
        s
      ≡ (returned tt, s1))
    (found : get_cli_volume_id_from_volume_group client "volume_group_name" name s1
      ≡ (returned id, s2))
    (failed : fix_creation_side_effects client name id volume_group s2 ≡ (raised e, s3)) where
  -- After any other error both are left.
  create_cli_volume_from_snapshot-left :
      is_rolled_back e ≡ false
      → create_cli_volume_from_snapshot client name pool io_group volume_group source_id s
        ≡ (raised e, s3)
  unfolding create_cli_volume_from_snapshot
  create_cli_volume_from_snapshot-left h = ground arith

-- A cleanup that returns leaves the outcome of what it follows, error or not, and its own state.
finally-returned :
    {S A : Type 0} (m : Exec S A) (cleanup : Exec S (Unit {0})) (s s' t : S) (r : Outcome A)
    → m s ≡ (r, s')
    → cleanup s' ≡ (returned tt, t)
    → finally m cleanup s ≡ (r, t)
finally-returned m cleanup s s' t r h c = ground arith
