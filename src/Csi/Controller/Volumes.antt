-- ===== src/Csi/Controller/Volumes.antt =====
-- DeleteVolume, ControllerExpandVolume, ValidateVolumeCapabilities, GetPluginInfo and the RPCs that are
-- not implemented.
use ibm_block_csi_driver.Prelude.{
  ℕ, true, false, not, ◌||◌, Option, none, some, String, ℤ, pos_part, truthy, is_empty, leb, ltb,
  if◌then◌else◌,
}
use ibm_block_csi_driver.Errors.{Exception}
use ibm_block_csi_driver.Outcome.{Outcome, returned, raised}
use ibm_block_csi_driver.Exec.{Exec, pure, raise, lift, try_except, ◌>>=◌, ◌>>◌}
use ibm_block_csi_driver.Requests.Ids.{volume, ObjectIdInfo, get_object_id_info}
use ibm_block_csi_driver.Requests.Secrets.{get_array_connection_info_from_secrets}
use ibm_block_csi_driver.Requests.Messages.{
  VolumeIdRequest, ExpandVolumeRequest, ValidateCapabilitiesRequest,
}
use ibm_block_csi_driver.Requests.Validation.{
  validate_delete_volume_request, validate_expand_volume_request,
  validate_validate_volume_capabilities_request,
}
use ibm_block_csi_driver.Arrays.Mediator.{ArrayMediator, ArrayObject, as_volume}
use ibm_block_csi_driver.Csi.Status.{
  Reply, ResponseType, StatusCode, success, empty_success, build_error_response, handle_exception,
}
use ibm_block_csi_driver.Csi.Responses.{
  ExpandBody, ConfirmedBody, generate_confirmed_response, validate_volume_context_match_volume,
  validate_parameters_match_volume,
}
use ibm_block_csi_driver.Csi.Session.{Environment, Arrays, with_mediator}

-- `request.capacity_range.required_bytes`, once it is known not to be negative
abbrev pub required_bytes_of : Option ℤ → ℕ
required_bytes_of none = 0
required_bytes_of (some n) = pos_part n

-- `except ObjectNotFoundError` with a body that only logs
abbrev pub ignore_not_found : Exception → Outcome (Unit {0})
ignore_not_found Exception.object_not_found = returned tt
ignore_not_found e = raised e

abbrev expand_caught : Exception → Outcome (Reply ExpandBody)
expand_caught Exception.not_enough_space_in_pool = returned (
    handle_exception Exception.not_enough_space_in_pool StatusCode.resource_exhausted
      ResponseType.expand_volume_response)
expand_caught Exception.object_is_still_in_use = returned (
    handle_exception Exception.object_is_still_in_use StatusCode.internal
      ResponseType.expand_volume_response)
expand_caught e = raised e

abbrev validate_caught : Exception → Outcome (Reply ConfirmedBody)
validate_caught Exception.object_id_error = returned (
    handle_exception Exception.object_id_error StatusCode.not_found
      ResponseType.validate_capabilities_response)
validate_caught e = raised e

module _ {S : Type 0} where
  -- `if not volume: raise ObjectNotFoundError`
  unfoldable pub found_or_raise : Option ArrayObject → Exec S ArrayObject
  found_or_raise none = raise Exception.object_not_found
  found_or_raise (some o) = pure o

  -- The body of the `with` of `DeleteVolume`
  unfoldable pub delete_body : Option String → Option String → ArrayMediator S → Exec S (Unit {0})
  delete_body volume_id partition_name m =
      try_except (m.delete_volume volume_id partition_name) (λ e. lift (ignore_not_found e))

  expand_to : Option String → Option String → ℕ → ArrayMediator S → Exec S (Reply ExpandBody)
  unfolding found_or_raise as_volume
  expand_to volume_id partition_name required_bytes m = do
    m.expand_volume volume_id required_bytes partition_name
    found ← m.get_object_by_id volume_id (some volume) false
    expanded ← found_or_raise found
    w ← as_volume expanded
    pure (
        success ResponseType.expand_volume_response
          (record { capacity_bytes = w.capacity_bytes; node_expansion_required = true }))

  -- The body of the `with` of `ControllerExpandVolume`
  unfoldable pub expand_body :
      Option String → Option String → ℕ → ArrayMediator S → Exec S (Reply ExpandBody)
  unfolding found_or_raise build_error_response as_volume expand_to
  expand_body volume_id partition_name required_bytes m = do
    found ← m.get_object_by_id volume_id (some volume) false
    existing ← found_or_raise found
    m.verify_volume_partition existing partition_name
    v ← as_volume existing
    let large_enough = pure (
        success ResponseType.expand_volume_response
          (record { capacity_bytes = v.capacity_bytes; node_expansion_required = false }))
    let too_large = pure (
        build_error_response "SIZE_OUT_OF_RANGE_ERROR_MESSAGE" StatusCode.out_of_range
          ResponseType.expand_volume_response)
    let smaller =
        if ltb m.maximal_volume_size_in_bytes required_bytes
        then too_large
        else expand_to volume_id partition_name required_bytes m
    if leb required_bytes v.capacity_bytes then large_enough else smaller

  -- The `with` of `ValidateVolumeCapabilities`, with the mediator, which is used after it.
  find_volume : Option String → ArrayMediator S → Exec S (ArrayMediator S × Option ArrayObject)
  find_volume volume_id m = do
    found ← m.get_object_by_id volume_id (some volume) false
    pure (m, found)

module _ {S : Type 0} (env : Environment) (arrays : Arrays S) where
  delete_with : VolumeIdRequest → Outcome ObjectIdInfo → Exec S (Reply (Unit {0}))
  unfolding delete_body
  delete_with r (raised Exception.object_id_error) =
      pure (empty_success ResponseType.delete_volume_response)
  delete_with r (raised e) = raise e
  delete_with r (returned id_info) = do
    info ←
        lift
          (get_array_connection_info_from_secrets env.load_config r.secrets none id_info.system_id)
    with_mediator arrays info id_info.array_type (delete_body id_info.ids.uid info.partition_name)
    pure (empty_success ResponseType.delete_volume_response)

  unfoldable pub delete_volume : VolumeIdRequest → Exec S (Reply (Unit {0}))
  unfolding delete_with
  delete_volume r = do
    lift (validate_delete_volume_request env.load_config r)
    delete_with r (get_object_id_info r.volume_id volume)

  expand_with : ExpandVolumeRequest → ObjectIdInfo → Exec S (Reply ExpandBody)
  unfolding expand_body
  expand_with r id_info = do
    info ←
        lift
          (get_array_connection_info_from_secrets env.load_config r.secrets none id_info.system_id)
    with_mediator arrays info id_info.array_type
        (expand_body id_info.ids.uid info.partition_name (required_bytes_of r.capacity_range))

  expand_id : ExpandVolumeRequest → Outcome ObjectIdInfo → Exec S (Reply ExpandBody)
  unfolding expand_with
  expand_id r (raised Exception.object_id_error) = pure (
      handle_exception Exception.object_id_error StatusCode.invalid_argument_code
        ResponseType.expand_volume_response)
  expand_id r (raised e) = raise e
  expand_id r (returned id_info) = try_except (expand_with r id_info) (λ e. lift (expand_caught e))

  unfoldable pub controller_expand_volume : ExpandVolumeRequest → Exec S (Reply ExpandBody)
  unfolding expand_id
  controller_expand_volume r = do
    lift (validate_expand_volume_request env.load_config r)
    expand_id r (get_object_id_info r.volume_id volume)

  -- The `try` block of `ValidateVolumeCapabilities`. It goes on using the mediator after the `with`
  -- has given it back.
  validate_body : ValidateCapabilitiesRequest → Exec S (Reply ConfirmedBody)
  unfolding found_or_raise find_volume
  validate_body r = do
    lift (validate_validate_volume_capabilities_request env.load_config r)
    id_info ← lift (get_object_id_info r.volume_id volume)
    info ←
        lift
          (get_array_connection_info_from_secrets env.load_config r.secrets none id_info.system_id)
    found ← with_mediator arrays info id_info.array_type (find_volume id_info.ids.uid)
    o ← found_or_raise found.1
    found.0.verify_volume_partition o info.partition_name
    v ← as_volume o
    lift (validate_volume_context_match_volume r.volume_context v)
    lift (
        if is_empty r.parameters
        then returned tt
        else validate_parameters_match_volume r.parameters v)
    pure (
        success ResponseType.validate_capabilities_response
          (generate_confirmed_response r.volume_context r.volume_capabilities r.parameters))

  unfoldable pub validate_volume_capabilities :
      ValidateCapabilitiesRequest → Exec S (Reply ConfirmedBody)
  unfolding validate_body
  validate_volume_capabilities r = try_except (validate_body r) (λ e. lift (validate_caught e))

-- The reply's body: the name and the version.
unfoldable pub get_plugin_info : Environment → Reply (String × String)
get_plugin_info env =
    if not (truthy env.plugin_name) || not (truthy env.plugin_version)
    then build_error_response "plugin name or version cannot be empty" StatusCode.internal
        ResponseType.plugin_info_response
    else success ResponseType.plugin_info_response (env.plugin_name, env.plugin_version)

module _ {S : Type 0} where
  -- `ListVolumes` and `GetCapacity`
  unfoldable pub list_volumes : Exec S (Reply (Unit {0}))
  list_volumes = raise Exception.not_implemented

  unfoldable pub get_capacity : Exec S (Reply (Unit {0}))
  get_capacity = raise Exception.not_implemented
