-- ===== src/Csi/VolumeGroups.antt =====
-- controllers/servers/csi/volume_group_server.py: making, deleting and changing volume groups.
pub mod Membership
use ibm_block_csi_driver.Prelude.{
  Bool, true, false, Option, none, some, String, List, [], ◌∷◌, lookup, is_empty, if◌then◌else◌,
}
use ibm_block_csi_driver.Errors.{Exception}
use ibm_block_csi_driver.Outcome.{Outcome, returned, raised}
use ibm_block_csi_driver.Exec.{Exec, pure, raise, lift, attempt, try_except, when, ◌>>=◌, ◌>>◌}
use ibm_block_csi_driver.Requests.Ids.{
  ObjectType, volume_group, ObjectIdInfo, get_object_id_info, normalize_utf8_text,
}
use ibm_block_csi_driver.Requests.Secrets.{
  ArrayConnectionInfo, get_array_connection_info_from_secrets,
}
use ibm_block_csi_driver.Requests.Parameters.{get_object_final_name}
use ibm_block_csi_driver.Requests.Messages.{
  CreateVolumeGroupRequest, DeleteVolumeGroupRequest, ModifyVolumeGroupRequest,
}
use ibm_block_csi_driver.Requests.Validation.{
  validate_create_volume_group_request, validate_delete_volume_group_request,
  validate_modify_volume_group_request,
}
use ibm_block_csi_driver.Arrays.Mediator.{ArrayMediator, Volume, VolumeGroup}
use ibm_block_csi_driver.Csi.Status.{
  Reply, ResponseType, StatusCode, success, empty_success, build_error_response, handle_exception,
}
use ibm_block_csi_driver.Csi.Session.{Environment, Arrays, with_mediator}
use ibm_block_csi_driver.Csi.GroupMembers.{
  VolumeGroupBody, created_group, modified_group, is_in_volume_group, is_in_request,
  get_volume_ids_from_request, get_volume_ids_from_volume_group,
}
use ibm_block_csi_driver.Csi.Controller.Volumes.{ignore_not_found}

abbrev group_exists : Exception → Outcome (Reply VolumeGroupBody)
group_exists Exception.volume_group_already_exists = returned (
    handle_exception Exception.volume_group_already_exists StatusCode.already_exists
      ResponseType.create_volume_group_response)
group_exists e = raised e

module _ {S : Type 0} where
  -- `_add_volumes_missing_from_group`
  unfoldable pub add_volumes_missing_from_group :
      List String
      → List (Option String)
      → String
      → Option String
      → ArrayMediator S
      → Exec S (Unit {0})
  add_volumes_missing_from_group [] group name partition m = pure tt
  add_volumes_missing_from_group (id ∷ ids) group name partition m = do
    when (if is_in_volume_group group id then false else true)
        (m.add_volume_to_volume_group name (some id) partition)
    add_volumes_missing_from_group ids group name partition m

  -- `_remove_volumes_missing_from_request`
  unfoldable pub remove_volumes_missing_from_request :
      List String
      → List (Option String)
      → Option String
      → Option String
      → ArrayMediator S
      → Exec S (Unit {0})
  remove_volumes_missing_from_request requested [] partition partition_vg m = pure tt
  remove_volumes_missing_from_request requested (id ∷ ids) partition partition_vg m = do
    requested_id ← lift (is_in_request requested id)
    when (if requested_id then false else true)
        (m.remove_volume_from_volume_group id partition partition_vg)
    remove_volumes_missing_from_request requested ids partition partition_vg m

  -- The body of the `with` of `ModifyVolumeGroupMembership`
  unfoldable pub modify_body :
      List String → String → ArrayConnectionInfo → ArrayMediator S → Exec S (Reply VolumeGroupBody)
  unfolding add_volumes_missing_from_group remove_volumes_missing_from_request
  modify_body volume_ids name info m = do
    group ← m.get_volume_group name
    m.verify_volume_group_partition group info.partition_name
    let in_group = get_volume_ids_from_volume_group group.volumes
    requested ← lift (get_volume_ids_from_request volume_ids)
    add_volumes_missing_from_group requested in_group name info.partition_name m
    remove_volumes_missing_from_request requested in_group info.partition_name info.partition_vg m
    changed ← m.get_volume_group name
    pure (success ResponseType.modify_volume_group_response (modified_group changed))

  found_group : VolumeGroup → Option String → ArrayMediator S → Exec S (Reply VolumeGroupBody)
  found_group group partition m = do
    m.verify_volume_group_partition group partition
    let found = success ResponseType.create_volume_group_response (created_group group)
    let not_empty =
        build_error_response "Volume group is not empty" StatusCode.already_exists
          ResponseType.create_volume_group_response
    pure (if is_empty group.volumes then found else not_empty)

  group_or_new :
      Outcome VolumeGroup
      → String
      → Option String
      → ArrayMediator S
      → Exec S (Reply VolumeGroupBody)
  unfolding found_group
  group_or_new (returned group) name partition m = found_group group partition m
  group_or_new (raised Exception.object_not_found) name partition m = do
    group ← m.create_volume_group name partition
    pure (success ResponseType.create_volume_group_response (created_group group))
  group_or_new (raised e) name partition m = raise e

  -- The body of the `with` of `CreateVolumeGroup`
  unfoldable pub create_group_body :
      (String → String)
      → CreateVolumeGroupRequest
      → Option String
      → ArrayMediator S
      → Exec S (Reply VolumeGroupBody)
  unfolding group_or_new
  create_group_body hash_string r partition m = do
    name ← lift (
        get_object_final_name hash_string (lookup "volume_group_name_prefix" r.parameters) r.name
          m.name_limits)
    group ← attempt (m.get_volume_group name)
    group_or_new group name partition m

  delete_found_group : String → Option String → ArrayMediator S → Exec S (Unit {0})
  delete_found_group name partition m = do
    group ← m.get_volume_group name
    m.verify_volume_group_partition group partition
    m.delete_volume_group name

  -- The body of the `with` of `DeleteVolumeGroup`
  unfoldable pub delete_group_body : String → Option String → ArrayMediator S → Exec S (Unit {0})
  unfolding delete_found_group
  delete_group_body name partition m =
      try_except (delete_found_group name partition m) (λ e. lift (ignore_not_found e))

module _ {S : Type 0} (env : Environment) (arrays : Arrays S) where
  create_group_try : CreateVolumeGroupRequest → Exec S (Reply VolumeGroupBody)
  unfolding create_group_body
  create_group_try r = do
    info ← lift (get_array_connection_info_from_secrets env.load_config r.secrets none none)
    array_type ← arrays.detect_array_type info.array_addresses
    with_mediator arrays info array_type (create_group_body env.hash_string r info.partition_name)

  unfoldable pub create_volume_group : CreateVolumeGroupRequest → Exec S (Reply VolumeGroupBody)
  unfolding create_group_try
  create_volume_group r = do
    lift (validate_create_volume_group_request env.load_config r)
    try_except (create_group_try r) (λ e. lift (group_exists e))

  delete_group_with : DeleteVolumeGroupRequest → Outcome ObjectIdInfo → Exec S (Reply (Unit {0}))
  unfolding delete_group_body
  delete_group_with r (raised Exception.object_id_error) =
      pure (empty_success ResponseType.delete_volume_group_response)
  delete_group_with r (raised e) = raise e
  delete_group_with r (returned id_info) = do
    info ← lift (get_array_connection_info_from_secrets env.load_config r.secrets none none)
    with_mediator arrays info id_info.array_type
        (delete_group_body (normalize_utf8_text id_info.ids.uid) info.partition_name)
    pure (empty_success ResponseType.delete_volume_group_response)

  unfoldable pub delete_volume_group : DeleteVolumeGroupRequest → Exec S (Reply (Unit {0}))
  unfolding delete_group_with
  delete_volume_group r = do
    lift (validate_delete_volume_group_request env.load_config r)
    delete_group_with r (get_object_id_info r.volume_group_id volume_group)

  modify_with : ModifyVolumeGroupRequest → Outcome ObjectIdInfo → Exec S (Reply VolumeGroupBody)
  unfolding modify_body
  modify_with r (raised Exception.object_id_error) = pure (
      handle_exception Exception.object_id_error StatusCode.invalid_argument_code
        ResponseType.modify_volume_group_response)
  modify_with r (raised e) = raise e
  modify_with r (returned id_info) = do
    info ← lift (get_array_connection_info_from_secrets env.load_config r.secrets none none)
    with_mediator arrays info id_info.array_type
        (modify_body r.volume_ids (normalize_utf8_text id_info.ids.uid) info)

  unfoldable pub modify_volume_group_membership :
      ModifyVolumeGroupRequest → Exec S (Reply VolumeGroupBody)
  unfolding modify_with
  modify_volume_group_membership r = do
    lift (validate_modify_volume_group_request env.load_config r)
    modify_with r (get_object_id_info r.volume_group_id volume_group)
