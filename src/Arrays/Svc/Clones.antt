-- ===== src/Arrays/Svc/Clones.antt =====
-- controllers/array_action/array_mediator_svc.py: volumes created from a snapshot or from another volume,
-- outside the partitions.
use ibm_block_csi_driver.Prelude.{Bool, true, false, Option, none, some, String, [], ◌∷◌, join}
use ibm_block_csi_driver.Errors.{Exception}
use ibm_block_csi_driver.Exec.{Exec, pure, raise, when, try_except, ◌>>=◌, ◌>>◌}
use ibm_block_csi_driver.Arrays.Svc.{text, CliVolume, SvcClient, lsvdisk_single_element}
use ibm_block_csi_driver.Arrays.Svc.Kwargs.{build_create_volume_in_volume_group_kwargs}
use ibm_block_csi_driver.Arrays.Svc.Volumes.{rmvolume}
use ibm_block_csi_driver.Arrays.Svc.VolumeGroups.{
  mkvolumegroup, rmvolumegroup, fix_creation_side_effects,
}
use ibm_block_csi_driver.Arrays.Svc.VolumeSnapshots.{add_snapshot, rmsnapshot}

-- What `_create_cli_volume_from_snapshot` rolls back for
unfoldable pub is_rolled_back : Exception → Bool
is_rolled_back (Exception.cli_error message) = true
is_rolled_back Exception.volume_already_exists = true
is_rolled_back e = false

module _ {S : Type 0} (client : SvcClient S) where
  id_of : Option CliVolume → Exec S String
  id_of none = raise Exception.attribute_error
  id_of (some v) = pure v.id

  -- `_get_cli_volume_id_from_volume_group`
  unfoldable pub get_cli_volume_id_from_volume_group : String → String → Exec S String
  unfolding lsvdisk_single_element id_of
  get_cli_volume_id_from_volume_group filter parameter =
      lsvdisk_single_element client
        (("filtervalue", text (join "" (filter ∷ "=" ∷ parameter ∷ []))) ∷ [])
      >>= id_of

  -- `_rollback_create_volume_from_snapshot`
  unfoldable pub rollback_create_volume_from_snapshot : String → String → Exec S (Unit {0})
  unfolding rmvolume rmvolumegroup
  rollback_create_volume_from_snapshot cli_volume_id volume_group_name =
      rmvolume client cli_volume_id true >> rmvolumegroup client volume_group_name

  roll_back : String → String → Exception → Exec S (Unit {0})
  unfolding is_rolled_back rollback_create_volume_from_snapshot
  roll_back cli_volume_id name e =
      when (is_rolled_back e) (rollback_create_volume_from_snapshot cli_volume_id name) >> raise e

  -- `_create_cli_volume_from_snapshot`: the volume comes in a group of its own, which is then removed.
  unfoldable pub create_cli_volume_from_snapshot :
      String → String → Option String → Option String → String → Exec S (Unit {0})
  unfolding mkvolumegroup build_create_volume_in_volume_group_kwargs
      get_cli_volume_id_from_volume_group fix_creation_side_effects roll_back
  create_cli_volume_from_snapshot name pool io_group volume_group source_id = do
    mkvolumegroup client name (build_create_volume_in_volume_group_kwargs pool io_group source_id)
    id ← get_cli_volume_id_from_volume_group "volume_group_name" name
    try_except (fix_creation_side_effects client name id volume_group) (roll_back id name)

  -- `_create_cli_volume_from_volume`
  unfoldable pub create_cli_volume_from_volume :
      String → String → Option String → Option String → String → Exec S (Unit {0})
  unfolding add_snapshot create_cli_volume_from_snapshot rmsnapshot
  create_cli_volume_from_volume name pool io_group volume_group source_id = do
    p ← add_snapshot client name source_id pool
    create_cli_volume_from_snapshot name pool io_group volume_group p.snapshot_id
    rmsnapshot client p.snapshot_id
