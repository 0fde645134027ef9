-- ===== src/Arrays/Svc/Deletion.antt =====
-- controllers/array_action/array_mediator_svc.py: volumes whose FlashCopy mappings are in use, and
-- snapshots that fail halfway.
use ibm_block_csi_driver.Prelude.{
  ◌≡◌, Bool, true, false, not, ◌&&◌, Option, none, some, String, List, any, arith,
}
use ibm_block_csi_driver.Errors.{Exception}
use ibm_block_csi_driver.Outcome.{returned, raised}
use ibm_block_csi_driver.Exec.{Exec, ◌>>◌}
use ibm_block_csi_driver.Arrays.Mapping.{Retry}
use ibm_block_csi_driver.Arrays.Svc.{
  CliVolume, Fcmap, SvcClient, get_cli_volume_by_wwn, get_fcmap_as_target_if_exists,
  get_fcmaps_as_source_if_exist, is_in_remote_copy_relationship,
}
use ibm_block_csi_driver.Arrays.Svc.Volumes.{rmvolume}
use ibm_block_csi_driver.Arrays.Svc.Copies.{
  in_use, to_delete, delete_fcmap, delete_fcmaps, safe_delete_fcmaps, delete_volume,
  safe_stop_and_delete_fcmap, stop_fcmap, create_snapshot, create_similar_volume,
  create_and_start_fcmap, rollback_create_snapshot,
}

-- A mapping that a remote copy controls is neither in use nor deleted; any other is exactly one of them.
in_use-to_delete :
    (f : Fcmap) → to_delete f ≡ (not (is_in_remote_copy_relationship f) && not (in_use f))
unfolding in_use to_delete
in_use-to_delete f = ground arith

module _ {S : Type 0} (client : SvcClient S) (volume_id : String) (s0 s s1 s2 s3 : S)
    (v : CliVolume) (target : Option Fcmap) (sources : List Fcmap)
    (registered : client.register_plugin "basic" s0 ≡ (returned tt, s))
    (there : get_cli_volume_by_wwn client volume_id s ≡ (returned v, s1))
    (as_target : get_fcmap_as_target_if_exists client v.name s1 ≡ (returned target, s2))
    (as_source : get_fcmaps_as_source_if_exist client v.name s2 ≡ (returned sources, s3)) where
  -- Outside a partition, a volume that is the source of a mapping in use is not deleted: the refusal says
  -- so, and after the plugin's registration no command that changes the array is sent, neither for the
  -- volume nor for any of its mappings.
  pub delete_volume-in_use :
      any in_use sources ≡ true
      → delete_volume client volume_id none s0 ≡ (raised Exception.object_is_still_in_use, s3)
  unfolding delete_volume safe_delete_fcmaps
  delete_volume-in_use u = ground arith

  -- A volume is removed only after its finished mappings are deleted and the mapping that it is the
  -- target of is stopped and deleted, in this order; one controlled by a remote copy is left.
  delete_volume-order :
      (f : Fcmap) (s4 s5 s6 : S)
      → target ≡ some f
      → any in_use sources ≡ false
      → is_in_remote_copy_relationship f ≡ false
      → delete_fcmaps client sources s3 ≡ (returned tt, s4)
      → stop_fcmap client f.id s4 ≡ (returned tt, s5)
      → delete_fcmap client f.id true s5 ≡ (returned tt, s6)
      → delete_volume client volume_id none s0 ≡ rmvolume client v.name true s6
  unfolding delete_volume safe_delete_fcmaps safe_stop_and_delete_fcmap
  delete_volume-order f s4 s5 s6 e n r a b c = ground arith

module _ {S : Type 0} (client : SvcClient S) (retry : Retry S) (is_client_error : Exception → Bool)
    (pop : List String → String) (target : String) (source : CliVolume) (efficiency : Option String)
    (pool : String) (s s' : S) where
  abbrev attempt_snapshot : Exec S CliVolume
  attempt_snapshot =
      create_similar_volume client retry is_client_error pop source target efficiency pool
      >> create_and_start_fcmap client source.name target false

  -- Where the array refuses a step of a snapshot, what was made is rolled back and the refusal is
  -- raised, with the state as the rollback left it.
  create_snapshot-rolled_back :
      (message : String) (t : S)
      → attempt_snapshot s ≡ (raised (Exception.cli_error message), s')
      → rollback_create_snapshot client target s' ≡ (returned tt, t)
      → create_snapshot client retry is_client_error pop target source efficiency pool s
        ≡ (raised (Exception.cli_error message), t)
  unfolding create_snapshot
  create_snapshot-rolled_back message t h r = ground (
    arith,
    retry.call-returned (Unit {0}) is_client_error 4 (rollback_create_snapshot client target) s' t
        tt r,
  )
