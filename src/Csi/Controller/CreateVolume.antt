-- ===== src/Csi/Controller/CreateVolume.antt =====
-- CreateVolume.
use ibm_block_csi_driver.Prelude.{
  ℕ, Bool, true, false, not, ◌&&◌, ◌||◌, Option, none, some, String, truthy?, is_empty, ltb, nat_eq,
  Dict, if◌then◌else◌,
}
use ibm_block_csi_driver.Errors.{Exception, Message, is_invalid_argument}
use ibm_block_csi_driver.Outcome.{Outcome, returned, raised}
use ibm_block_csi_driver.Exec.{
  Exec, pure, raise, raise_if, lift, attempt, try_except, when, ◌>>=◌, ◌>>◌,
}
use ibm_block_csi_driver.Requests.Ids.{
  ObjectType, volume, snapshot, ObjectIds, get_object_id_info, normalize_utf8_text,
}
use ibm_block_csi_driver.Requests.Secrets.{
  ArrayConnectionInfo, get_array_connection_info_from_secrets,
}
use ibm_block_csi_driver.Requests.Parameters.{
  ObjectParameters, get_object_parameters, get_object_final_name,
}
use ibm_block_csi_driver.Requests.Messages.{
  CreateVolumeRequest, ContentSource, from_snapshot, from_volume, no_source_type,
}
use ibm_block_csi_driver.Requests.Validation.{validate_create_volume_request}
use ibm_block_csi_driver.Arrays.Mediator.{
  ArrayMediator, ArrayObject, volume_object, as_volume, Volume,
}
use ibm_block_csi_driver.Arrays.Mapping.{Retry, copy_to_existing_volume_from_source}
use ibm_block_csi_driver.Csi.Status.{
  Reply, ResponseType, StatusCode, success, build_error_response, handle_exception,
}
use ibm_block_csi_driver.Csi.Responses.{
  VolumeBody, generate_volume_response, validate_parameters_match_source_volume,
  get_volume_topologies,
}
use ibm_block_csi_driver.Csi.Session.{Environment, Arrays, with_mediator}
use ibm_block_csi_driver.Csi.Controller.Volumes.{required_bytes_of}
use ibm_block_csi_driver.Csi.Controller.Snapshots.{same_text}

-- `_get_source_type_and_ids`
unfoldable pub get_source_type_and_ids :
    Option ContentSource → Outcome (Option ObjectType × ObjectIds)
get_source_type_and_ids none = returned (none, record { internal_id = none; uid = none })
get_source_type_and_ids (some no_source_type) =
    returned (none, record { internal_id = none; uid = none })
get_source_type_and_ids (some (from_snapshot id)) = elim (get_object_id_info id snapshot) [
  | raised e ↦ raised e
  | returned i ↦ returned (some snapshot, i.ids)
]
get_source_type_and_ids (some (from_volume id)) = elim (get_object_id_info id volume) [
  | raised e ↦ raised e
  | returned i ↦ returned (some volume, i.ids)
]

-- `source_ids.uid if source_ids.uid else source_ids.internal_id`
unfoldable pub source_id_of : ObjectIds → Option String
source_id_of ids = if truthy? ids.uid then ids.uid else ids.internal_id

abbrev pub failed : String → StatusCode → Reply VolumeBody
failed m c = build_error_response m c ResponseType.create_volume_response

-- The exceptions that the handler catches: `InvalidArgumentError` with the classes derived from it,
-- and `VolumeAlreadyExists`.
unfoldable pub create_volume_caught : Exception → Outcome (Reply VolumeBody)
create_volume_caught Exception.volume_already_exists = returned (
    handle_exception Exception.volume_already_exists StatusCode.already_exists
      ResponseType.create_volume_response)
create_volume_caught e =
    if is_invalid_argument e
    then returned
        (handle_exception e StatusCode.invalid_argument_code ResponseType.create_volume_response)
    else raised e

abbrev is_snapshot : Option ObjectType → Bool
is_snapshot (some snapshot) = true
is_snapshot _ = false

-- What a handler is given before it asks a mediator.
pub record Wanted : Type 0 where
  pub request : CreateVolumeRequest
  pub source_type : Option ObjectType
  pub source_ids : ObjectIds
  pub topologies : Option (Dict String)
  pub info : ArrayConnectionInfo
  pub params : ObjectParameters

abbrev pub source_id : Wanted → Option String
source_id w = source_id_of w.source_ids

abbrev pub use_snap_object : Wanted → Bool
use_snap_object w = w.params.virt_snap_func && not (truthy? w.info.partition_name)

abbrev pub no_flash_copy : Wanted → Bool
no_flash_copy w = w.params.virt_snap_func || truthy? w.info.partition_name

-- `if topologies`: a dict that is there and is not empty
abbrev has_topologies : Option (Dict String) → Bool
has_topologies none = false
has_topologies (some ts) = not (is_empty ts)

-- `_get_create_volume_response_for_existing_volume_source`
unfoldable pub response_for_existing_source : Volume → Wanted → Option (Reply VolumeBody)
unfolding same_text
response_for_existing_source v w =
    if not (truthy? (source_id w)) && not (truthy? v.source_id)
    then none
    else if same_text v.source_id (source_id w)
    then some (
        success ResponseType.create_volume_response
          (generate_volume_response v w.info.system_id w.source_type))
    else some (failed "created from a different source" StatusCode.already_exists)

module _ {S : Type 0} where
  -- The checks of a source that was found, and of the volume behind it
  verify_source : Wanted → ℕ → ArrayObject → ArrayMediator S → Exec S (Option (Reply VolumeBody))
  verify_source w required_bytes o m = do
    v ← as_volume o
    when (not (truthy? w.info.partition_name))
        (lift (validate_parameters_match_source_volume w.params.space_efficiency required_bytes v))
    m.verify_volume_partition o w.info.partition_name
    pure none

  source_volume_of : Wanted → ℕ → ArrayObject → ArrayMediator S → Exec S (Option (Reply VolumeBody))
  unfolding verify_source
  source_volume_of w required_bytes o m = do
    v ← as_volume o
    found ← m.get_object_by_id v.source_id (some volume) false
    let missing = pure (some (failed "source volume not found" StatusCode.invalid_argument_code))
    elim found [ none ↦ missing | some o' ↦ verify_source w required_bytes o' m ]

  -- A reply where the source's check ends the call
  unfoldable pub check_source : Wanted → ℕ → ArrayMediator S → Exec S (Option (Reply VolumeBody))
  unfolding verify_source source_volume_of
  check_source w required_bytes m = do
    found ← m.get_object_by_id (source_id w) w.source_type (use_snap_object w)
    let missing = pure (some (failed "source not found" StatusCode.not_found))
    elim found [
      | none ↦ missing
      | some o ↦
          if use_snap_object w && is_snapshot w.source_type
          then source_volume_of w required_bytes o m
          else verify_source w required_bytes o m
    ]

  -- The end of the handler: the copy, where the array's own copy of the source is asked for
  unfoldable pub finish :
      Retry S → Wanted → ℕ → Volume → ArrayMediator S → Exec S (Reply VolumeBody)
  finish retry w required_bytes v m = do
    when (truthy? (source_id w) && not (no_flash_copy w)) (
        copy_to_existing_volume_from_source retry m v.id (normalize_utf8_text (source_id w))
          w.source_type required_bytes)
    pure (
        success ResponseType.create_volume_response (
          generate_volume_response (record v { source_id = source_id w }) w.info.system_id
            w.source_type))

  -- `except ObjectNotFoundError` of `get_volume`
  unfoldable pub create_new : Wanted → ℕ → String → String → ArrayMediator S → Exec S Volume
  create_new w required_bytes name pool m = do
    m.validate_supported_space_efficiency w.params.space_efficiency
    when (has_topologies w.topologies) (m.register_plugin "topology" "")
    m.create_volume name required_bytes w.params.space_efficiency pool w.params.io_group
        w.params.volume_group w.source_ids w.source_type (use_snap_object w) w.info.partition_name
        w.info.partition_vg w.request.parameters

  -- The `else` of `get_volume`: the reply where it ends the call
  unfoldable pub check_existing :
      Wanted → ℕ → Volume → ArrayMediator S → Exec S (Option (Reply VolumeBody))
  unfolding response_for_existing_source
  check_existing w required_bytes v m = do
    m.verify_volume_partition (volume_object v) w.info.partition_name
    let too_small = some (failed "created with different size" StatusCode.already_exists)
    let by_source = if use_snap_object w then none else response_for_existing_source v w
    pure (
        if not (truthy? (source_id w)) && ltb v.capacity_bytes required_bytes
        then too_small
        else by_source)

  module _ (retry : Retry S) (w : Wanted) (required_bytes : ℕ) (name pool : String)
      (m : ArrayMediator S) where
    use_existing : Volume → Exec S (Reply VolumeBody)
    unfolding check_existing finish
    use_existing v = do
      early ← check_existing w required_bytes v m
      let go_on = finish retry w required_bytes v m
      elim early [ some reply ↦ pure reply | none ↦ go_on ]

    obtained : Outcome Volume → Exec S (Reply VolumeBody)
    unfolding use_existing create_new finish
    obtained (returned v) = use_existing v
    obtained (raised Exception.object_not_found) = do
      v ← create_new w required_bytes name pool m
      finish retry w required_bytes v m
    obtained (raised e) = raise e

    -- From the search of the volume by its name on
    unfoldable pub obtain : Exec S (Reply VolumeBody)
    unfolding obtained
    obtain = do found ← attempt (m.get_volume name (some pool) (use_snap_object w)); obtained found

  with_source : Retry S → Wanted → ℕ → String → String → ArrayMediator S → Exec S (Reply VolumeBody)
  unfolding check_source obtain
  with_source retry w required_bytes name pool m = do
    early ← check_source w required_bytes m
    let go_on = obtain retry w required_bytes name pool m
    elim early [ some reply ↦ pure reply | none ↦ go_on ]

  -- The body of the `with`
  unfoldable pub create_volume_body :
      Retry S → (String → String) → Wanted → String → ArrayMediator S → Exec S (Reply VolumeBody)
  unfolding with_source obtain
  create_volume_body retry hash_string w pool m = do
    name ← lift (get_object_final_name hash_string w.params.prefix w.request.name m.name_limits)
    let requested = required_bytes_of w.request.capacity_range
    let required_bytes : ℕ =
        if nat_eq requested 0 then m.minimal_volume_size_in_bytes else requested
    let checked = with_source retry w required_bytes name pool m
    let unchecked = obtain retry w required_bytes name pool m
    let in_range = if no_flash_copy w && truthy? (source_id w) then checked else unchecked
    let out_of_range = pure (failed "SIZE_OUT_OF_RANGE_ERROR_MESSAGE" StatusCode.out_of_range)
    if ltb m.maximal_volume_size_in_bytes requested then out_of_range else in_range

module _ {S : Type 0} (env : Environment) (arrays : Arrays S) where
  -- The outer `try` block of `CreateVolume`
  create_volume_try :
      CreateVolumeRequest → Option ObjectType → ObjectIds → Exec S (Reply VolumeBody)
  unfolding create_volume_body
  create_volume_try r source_type source_ids = do
    let topologies = get_volume_topologies r
    info ← lift (get_array_connection_info_from_secrets env.load_config r.secrets topologies none)
    p ←
        lift (
          get_object_parameters env.load_parameters r.parameters "volume_name_prefix"
            info.system_id)
    raise_if (not (truthy? p.pool)) (Exception.validation Message.pool_empty)
    array_type ← arrays.detect_array_type info.array_addresses
    with_mediator arrays info array_type (
        create_volume_body arrays.retry env.hash_string
          (record {
            request = r;
            source_type = source_type;
            source_ids = source_ids;
            topologies = topologies;
            info = info;
            params = p;
          })
          (normalize_utf8_text p.pool))

  create_validated : CreateVolumeRequest → Outcome (Unit {0}) → Exec S (Reply VolumeBody)
  unfolding create_volume_try create_volume_caught
  create_validated r (raised Exception.object_id_error) = pure (
      handle_exception Exception.object_id_error StatusCode.not_found
        ResponseType.create_volume_response)
  create_validated r (raised e) = raise e
  create_validated r (returned u) = do
    source ← lift (get_source_type_and_ids r.volume_content_source)
    try_except (create_volume_try r source.0 source.1) (λ e. lift (create_volume_caught e))

  unfoldable pub create_volume : CreateVolumeRequest → Exec S (Reply VolumeBody)
  unfolding create_validated
  create_volume r = create_validated r (validate_create_volume_request env.load_config r)
