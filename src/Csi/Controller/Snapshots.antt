-- ===== src/Csi/Controller/Snapshots.antt =====
-- CreateSnapshot and DeleteSnapshot.
use ibm_block_csi_driver.Prelude.{
  Bool, true, false, not, ◌&&◌, Option, none, some, String, truthy?, ◌==◌, if◌then◌else◌,
}
use ibm_block_csi_driver.Errors.{Exception}
use ibm_block_csi_driver.Outcome.{Outcome, returned, raised}
use ibm_block_csi_driver.Exec.{Exec, pure, raise, raise_if, lift, try_except, ◌>>=◌, ◌>>◌}
use ibm_block_csi_driver.Requests.Ids.{
  volume, snapshot, ObjectIds, ObjectIdInfo, get_object_id_info,
}
use ibm_block_csi_driver.Requests.Secrets.{
  ArrayConnectionInfo, get_array_connection_info_from_secrets,
}
use ibm_block_csi_driver.Requests.Parameters.{
  ObjectParameters, get_object_parameters, get_object_final_name,
}
use ibm_block_csi_driver.Requests.Messages.{CreateSnapshotRequest, DeleteSnapshotRequest}
use ibm_block_csi_driver.Requests.Validation.{
  validate_create_snapshot_request, validate_delete_snapshot_request,
}
use ibm_block_csi_driver.Arrays.Mediator.{ArrayMediator, snapshot_object, Snapshot}
use ibm_block_csi_driver.Csi.Status.{
  Reply, ResponseType, StatusCode, success, empty_success, build_error_response, handle_exception,
}
use ibm_block_csi_driver.Csi.Responses.{SnapshotBody, generate_snapshot_response}
use ibm_block_csi_driver.Csi.Session.{Environment, Arrays, with_mediator}
use ibm_block_csi_driver.Csi.Controller.Volumes.{found_or_raise, ignore_not_found}

-- Two values that may be `None` are the same.
unfoldable pub same_text : Option String → Option String → Bool
same_text none none = true
same_text (some s) (some t) = s == t
same_text _ _ = false

unfoldable pub snapshot_code : Exception → Option StatusCode
snapshot_code Exception.object_id_error = some StatusCode.invalid_argument_code
snapshot_code Exception.snapshot_source_pool_mismatch = some StatusCode.invalid_argument_code
snapshot_code Exception.space_efficiency_not_supported = some StatusCode.invalid_argument_code
snapshot_code Exception.not_enough_space_in_pool = some StatusCode.resource_exhausted
snapshot_code _ = none

abbrev no_snapshot : Exception → Outcome (Reply (Unit {0}))
no_snapshot Exception.object_not_found =
    returned (empty_success ResponseType.delete_snapshot_response)
no_snapshot e = raised e

module _ {S : Type 0} where
  snapshot_caught : Exception → Exec S (Reply SnapshotBody)
  unfolding snapshot_code
  snapshot_caught e = elim (snapshot_code e) [
    | none ↦ lift (raised e)
    | some c ↦ pure (handle_exception e c ResponseType.create_snapshot_response)
  ]

  -- What the handler knows before it asks a mediator: the request, its source volume, the system id
  -- of that id, the connection and the parameters.
  module _ (r : CreateSnapshotRequest) (id_info : ObjectIdInfo) (info : ArrayConnectionInfo)
      (p : ObjectParameters) (use_snap_object : Bool) where
    -- The branch for a snapshot that is there
    existing_snapshot : ArrayMediator S → Snapshot → Exec S (Reply SnapshotBody)
    unfolding same_text build_error_response
    existing_snapshot m s = do
      m.verify_volume_partition (snapshot_object s) info.partition_name
      let found =
          success ResponseType.create_snapshot_response
            (generate_snapshot_response s id_info.system_id r.source_volume_id)
      let wrong_volume =
          build_error_response "SNAPSHOT_WRONG_VOLUME_ERROR_MESSAGE" StatusCode.already_exists
            ResponseType.create_snapshot_response
      pure (if same_text s.source_id id_info.ids.uid then found else wrong_volume)

    -- The branch for a snapshot that is not there
    new_snapshot : ArrayMediator S → String → Exec S (Reply SnapshotBody)
    unfolding found_or_raise
    new_snapshot m name = do
      m.validate_supported_space_efficiency p.space_efficiency
      found ← m.get_object_by_id id_info.ids.uid (some volume) false
      source ← found_or_raise found
      m.verify_volume_partition source info.partition_name
      s ←
          m.create_snapshot id_info.ids.uid name p.space_efficiency p.pool use_snap_object
            info.partition_name p.initial_repo_group_size_pct
      pure (
          success ResponseType.create_snapshot_response
            (generate_snapshot_response s id_info.system_id r.source_volume_id))

    -- The body of the `with` of `CreateSnapshot`
    unfoldable pub snapshot_body : (String → String) → ArrayMediator S → Exec S (Reply SnapshotBody)
    unfolding existing_snapshot new_snapshot
    snapshot_body hash_string m = do
      name ← lift (get_object_final_name hash_string p.prefix r.name m.name_limits)
      found ← m.get_snapshot id_info.ids.uid name p.pool use_snap_object
      elim found [ some s ↦ existing_snapshot m s | none ↦ new_snapshot m name ]

module _ {S : Type 0} (env : Environment) (arrays : Arrays S) where
  -- The `try` block of `CreateSnapshot`
  create_snapshot_body : CreateSnapshotRequest → Exec S (Reply SnapshotBody)
  unfolding snapshot_body
  create_snapshot_body r = do
    id_info ← lift (get_object_id_info r.source_volume_id volume)
    info ←
        lift
          (get_array_connection_info_from_secrets env.load_config r.secrets none id_info.system_id)
    p ← lift (
        get_object_parameters env.load_parameters r.parameters "snapshot_name_prefix"
          info.system_id)
    let use_snap_object = p.virt_snap_func && not (truthy? info.partition_name)
    raise_if (use_snap_object && truthy? p.space_efficiency)
        Exception.space_efficiency_not_supported
    with_mediator arrays info id_info.array_type
        (snapshot_body r id_info info p use_snap_object env.hash_string)

  unfoldable pub create_snapshot : CreateSnapshotRequest → Exec S (Reply SnapshotBody)
  unfolding create_snapshot_body snapshot_caught
  create_snapshot r = do
    lift (validate_create_snapshot_request env.load_config r)
    try_except (create_snapshot_body r) snapshot_caught

  -- The body of the `with` of `DeleteSnapshot`
  unfoldable pub delete_snapshot_body :
      ObjectIds → Option String → ArrayMediator S → Exec S (Unit {0})
  delete_snapshot_body ids partition_name m =
      try_except (m.delete_snapshot ids.uid ids.internal_id partition_name)
        (λ e. lift (ignore_not_found e))

  delete_snapshot_with : DeleteSnapshotRequest → Outcome ObjectIdInfo → Exec S (Reply (Unit {0}))
  unfolding delete_snapshot_body
  delete_snapshot_with r (raised Exception.object_id_error) =
      pure (empty_success ResponseType.delete_snapshot_response)
  delete_snapshot_with r (raised e) = raise e
  delete_snapshot_with r (returned id_info) = do
    info ←
        lift
          (get_array_connection_info_from_secrets env.load_config r.secrets none id_info.system_id)
    with_mediator arrays info id_info.array_type
        (delete_snapshot_body id_info.ids info.partition_name)
    pure (empty_success ResponseType.delete_snapshot_response)

  unfoldable pub delete_snapshot : DeleteSnapshotRequest → Exec S (Reply (Unit {0}))
  unfolding delete_snapshot_with
  delete_snapshot r = do
    lift (validate_delete_snapshot_request env.load_config r)
    try_except (delete_snapshot_with r (get_object_id_info r.snapshot_id snapshot))
        (λ e. lift (no_snapshot e))
