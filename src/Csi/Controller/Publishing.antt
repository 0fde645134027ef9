-- ===== src/Csi/Controller/Publishing.antt =====
-- ControllerPublishVolume and ControllerUnpublishVolume.
use ibm_block_csi_driver.Prelude.{false, Option, none, some, String, Dict}
use ibm_block_csi_driver.Errors.{Exception}
use ibm_block_csi_driver.Outcome.{Outcome, returned, raised}
use ibm_block_csi_driver.Exec.{Exec, pure, lift, try_except, ◌>>=◌, ◌>>◌}
use ibm_block_csi_driver.Requests.Ids.{
  volume, ObjectIdInfo, get_object_id_info, normalize_utf8_text,
}
use ibm_block_csi_driver.Requests.Secrets.{get_array_connection_info_from_secrets}
use ibm_block_csi_driver.Requests.Nodes.{Initiators, node_name, get_node_initiators}
use ibm_block_csi_driver.Requests.Messages.{PublishVolumeRequest, UnpublishVolumeRequest}
use ibm_block_csi_driver.Requests.Validation.{
  validate_publish_volume_request, validate_unpublish_volume_request, is_exclusive_access,
}
use ibm_block_csi_driver.Arrays.Mediator.{ArrayMediator, ArrayObject}
use ibm_block_csi_driver.Arrays.Mapping.{
  Mapped, map_volume_by_initiators, unmap_volume_by_initiators,
}
use ibm_block_csi_driver.Csi.Status.{
  Reply, ResponseType, StatusCode, success, empty_success, handle_exception,
}
use ibm_block_csi_driver.Csi.Responses.{generate_publish_response}
use ibm_block_csi_driver.Csi.Session.{Environment, Arrays, with_mediator}

-- The code that each exception caught by `ControllerPublishVolume` is answered with. None of these
-- classes has a derived class.
unfoldable pub publish_code : Exception → Option StatusCode
publish_code Exception.volume_already_mapped_to_different_hosts =
    some StatusCode.failed_precondition
publish_code Exception.lun_already_in_use = some StatusCode.resource_exhausted
publish_code Exception.no_available_lun = some StatusCode.resource_exhausted
publish_code Exception.no_iscsi_targets_found = some StatusCode.not_found
publish_code Exception.object_id_error = some StatusCode.not_found
publish_code Exception.invalid_node_id = some StatusCode.not_found
publish_code Exception.unsupported_connectivity_type = some StatusCode.invalid_argument_code
publish_code _ = none

-- The exceptions for which `ControllerUnpublishVolume` still succeeds.
unfoldable pub unpublish_caught : Exception → Outcome (Reply (Unit {0}))
unpublish_caught Exception.object_id_error = returned (
    handle_exception Exception.object_id_error StatusCode.invalid_argument_code
      ResponseType.unpublish_volume_response)
unpublish_caught Exception.host_not_found =
    returned (empty_success ResponseType.unpublish_volume_response)
unpublish_caught Exception.invalid_node_id =
    returned (empty_success ResponseType.unpublish_volume_response)
unpublish_caught Exception.volume_already_unmapped =
    returned (empty_success ResponseType.unpublish_volume_response)
unpublish_caught Exception.object_not_found =
    returned (empty_success ResponseType.unpublish_volume_response)
unpublish_caught Exception.volume_not_mapped_to_host =
    returned (empty_success ResponseType.unpublish_volume_response)
unpublish_caught e = raised e

module _ {S : Type 0} where
  -- `if volume is not None: verify_volume_partition(…)`
  unfoldable pub verify_if_found :
      Option ArrayObject → Option String → ArrayMediator S → Exec S (Unit {0})
  verify_if_found none partition_name m = pure tt
  verify_if_found (some o) partition_name m = m.verify_volume_partition o partition_name

  publish_caught : Exception → Exec S (Reply (Dict String))
  unfolding publish_code
  publish_caught e = elim (publish_code e) [
    | none ↦ lift (raised e)
    | some c ↦ pure (handle_exception e c ResponseType.publish_volume_response)
  ]

module _ {S : Type 0} (env : Environment) (arrays : Arrays S) where
  publish_on :
      ObjectIdInfo
      → Option String
      → Initiators
      → PublishVolumeRequest
      → ArrayMediator S
      → Exec S Mapped
  unfolding verify_if_found
  publish_on id_info partition_name initiators r m = do
    found ← m.get_object_by_id id_info.ids.uid (some volume) false
    verify_if_found found partition_name m
    map_volume_by_initiators arrays.retry m (normalize_utf8_text id_info.ids.uid) initiators
        (is_exclusive_access r)

  -- The `try` block of `ControllerPublishVolume`
  publish_body : PublishVolumeRequest → Exec S (Reply (Dict String))
  unfolding publish_on
  publish_body r = do
    lift (validate_publish_volume_request env.load_config r)
    id_info ← lift (get_object_id_info r.volume_id volume)
    let initiators = get_node_initiators env.nodes (node_name r.node_id)
    info ←
        lift
          (get_array_connection_info_from_secrets env.load_config r.secrets none id_info.system_id)
    mapped ←
        with_mediator arrays info id_info.array_type
          (publish_on id_info info.partition_name initiators r)
    context ← lift (generate_publish_response mapped.0 mapped.1 mapped.2)
    pure (success ResponseType.publish_volume_response context)

  unfoldable pub controller_publish_volume : PublishVolumeRequest → Exec S (Reply (Dict String))
  unfolding publish_body publish_caught
  controller_publish_volume r = try_except (publish_body r) publish_caught

  -- The body of the `with` of `ControllerUnpublishVolume`
  unfoldable pub unpublish_on :
      Option String → Option String → Initiators → ArrayMediator S → Exec S (Unit {0})
  unfolding verify_if_found
  unpublish_on volume_id partition_name initiators m = do
    found ← m.get_object_by_id volume_id (some volume) false
    verify_if_found found partition_name m
    unmap_volume_by_initiators arrays.retry m (normalize_utf8_text volume_id) initiators

  -- The `try` block of `ControllerUnpublishVolume`
  unfoldable pub unpublish_body : UnpublishVolumeRequest → Exec S (Reply (Unit {0}))
  unfolding unpublish_on
  unpublish_body r = do
    lift (validate_unpublish_volume_request env.load_config r)
    id_info ← lift (get_object_id_info r.volume_id volume)
    let initiators = get_node_initiators env.nodes (node_name r.node_id)
    info ←
        lift
          (get_array_connection_info_from_secrets env.load_config r.secrets none id_info.system_id)
    with_mediator arrays info id_info.array_type
        (unpublish_on id_info.ids.uid info.partition_name initiators)
    pure (empty_success ResponseType.unpublish_volume_response)

  unfoldable pub controller_unpublish_volume : UnpublishVolumeRequest → Exec S (Reply (Unit {0}))
  unfolding unpublish_body unpublish_caught
  controller_unpublish_volume r = try_except (unpublish_body r) (λ e. lift (unpublish_caught e))
