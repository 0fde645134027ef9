-- ===== src/Requests/Validation.antt =====
-- The validation of requests in controllers/servers/utils.py, before a storage system is asked.
pub mod Accepted
pub mod Contents
use ibm_block_csi_driver.Prelude.{
  ℕ, Bool, true, false, not, ◌||◌, ◌&&◌, Option, none, some, String, List, [], ◌∷◌, Dict, lookup,
  lookup_or, has_key, is_empty, ℤ, is_negative, truthy, elem, ◌==◌, if◌then◌else◌,
}
use ibm_block_csi_driver.Errors.{Exception, Message}
use ibm_block_csi_driver.Outcome.{Outcome, returned, raised, raise_if, for_each, ◌>>=◌, ◌>>◌}
use ibm_block_csi_driver.Requests.Ids.{validate_object_id}
use ibm_block_csi_driver.Requests.Secrets.{SystemInfo, validate_secrets}
use ibm_block_csi_driver.Requests.Messages.{
  AccessMode, AccessType, mount, block, no_access_type, VolumeCapability, ContentSource,
  from_snapshot, from_volume, no_source_type, CreateVolumeRequest, VolumeIdRequest,
  PublishVolumeRequest, UnpublishVolumeRequest, ValidateCapabilitiesRequest, CreateSnapshotRequest,
  DeleteSnapshotRequest, ExpandVolumeRequest, CreateVolumeGroupRequest, DeleteVolumeGroupRequest,
  ModifyVolumeGroupRequest,
}

-- `SUPPORTED_ACCESS_MODE`
unfoldable pub is_supported_mode : AccessMode → Bool
is_supported_mode AccessMode.single_node_writer = true
is_supported_mode AccessMode.multi_node_multi_writer = true
is_supported_mode _ = false

validate_access_type : AccessType → Outcome (Unit {0})
validate_access_type (mount fs_type mount_flags) = do
  raise_if (truthy fs_type && not (elem fs_type ("ext4" ∷ "xfs" ∷ [])))
      (Exception.validation Message.unsupported_fs_type)
  raise_if (not (is_empty mount_flags)) (Exception.validation Message.unsupported_mount_flags)
validate_access_type block = returned tt
validate_access_type no_access_type =
    raised (Exception.validation Message.unsupported_volume_access_type)

unfoldable pub validate_csi_volume_capability : VolumeCapability → Outcome (Unit {0})
unfolding validate_access_type is_supported_mode
validate_csi_volume_capability cap = do
  validate_access_type cap.access_type
  raise_if (not (is_supported_mode cap.access_mode))
      (Exception.validation Message.unsupported_access_mode)

unfoldable pub validate_csi_volume_capabilities : List VolumeCapability → Outcome (Unit {0})
validate_csi_volume_capabilities caps = do
  raise_if (is_empty caps) (Exception.validation Message.capabilities_not_set)
  for_each validate_csi_volume_capability caps

-- `validate_create_volume_source` and `_validate_source_info`
unfoldable pub validate_create_volume_source : Option ContentSource → Outcome (Unit {0})
validate_create_volume_source none = returned tt
validate_create_volume_source (some (from_snapshot id)) =
    validate_object_id id (Message.volume_source_missing "snapshot")
validate_create_volume_source (some (from_volume id)) =
    validate_object_id id (Message.volume_source_missing "volume")
validate_create_volume_source (some no_source_type) = returned tt

unfoldable pub validate_pool_parameter : Dict String → Outcome (Unit {0})
validate_pool_parameter parameters = elim (lookup "pool" parameters) [
  | some pool ↦ raise_if (not (truthy pool)) (Exception.validation Message.pool_empty)
  | none ↦
      raise_if (not (truthy (lookup_or "by_management_id" "" parameters)))
        (Exception.validation Message.pool_missing)
]

-- `if request.capacity_range: if required_bytes < 0: …`
unfoldable pub validate_capacity : Option ℤ → Outcome (Unit {0})
validate_capacity none = raised (Exception.validation Message.no_capacity_range)
validate_capacity (some required_bytes) =
    raise_if (is_negative required_bytes) (Exception.validation Message.size_negative)

-- `_validate_request_required_field`
abbrev pub required_field : String × String → Outcome (Unit {0})
required_field (value, field_name) =
    raise_if (not (truthy value)) (Exception.validation (Message.field_empty field_name))

-- `_validate_node_id`: a text that is not empty
unfoldable pub validate_node_id : String → Outcome (Unit {0})
validate_node_id node_id = raise_if (not (truthy node_id)) Exception.invalid_node_id

module _ (loads : String → Option (Dict SystemInfo)) where
  -- `_validate_minimum_request_fields`: each field's value with its name, and the secrets
  unfoldable pub validate_minimum_request_fields :
      List (String × String) → Dict String → Outcome (Unit {0})
  unfolding for_each
  validate_minimum_request_fields fields secrets = do
    for_each required_field fields
    validate_secrets loads secrets

  unfoldable pub validate_create_volume_request : CreateVolumeRequest → Outcome (Unit {0})
  unfolding validate_minimum_request_fields validate_capacity
  validate_create_volume_request r = do
    validate_minimum_request_fields ((r.name, "name") ∷ []) r.secrets
    validate_capacity r.capacity_range
    validate_csi_volume_capabilities r.volume_capabilities
    raise_if (is_empty r.parameters) (Exception.validation Message.pool_missing)
    validate_pool_parameter r.parameters
    validate_create_volume_source r.volume_content_source

  unfoldable pub validate_create_volume_group_request :
      CreateVolumeGroupRequest → Outcome (Unit {0})
  unfolding validate_minimum_request_fields
  validate_create_volume_group_request r =
      validate_minimum_request_fields ((r.name, "name") ∷ []) r.secrets

  unfoldable pub validate_create_snapshot_request : CreateSnapshotRequest → Outcome (Unit {0})
  unfolding validate_minimum_request_fields
  validate_create_snapshot_request r = do
    validate_minimum_request_fields ((r.name, "name") ∷ []) r.secrets
    raise_if (not (truthy r.source_volume_id))
        (Exception.validation Message.snapshot_source_missing)

  unfoldable pub validate_delete_snapshot_request : DeleteSnapshotRequest → Outcome (Unit {0})
  unfolding validate_minimum_request_fields
  validate_delete_snapshot_request r =
      validate_minimum_request_fields ((r.snapshot_id, "snapshot_id") ∷ []) r.secrets

  unfoldable pub validate_validate_volume_capabilities_request :
      ValidateCapabilitiesRequest → Outcome (Unit {0})
  unfolding validate_minimum_request_fields
  validate_validate_volume_capabilities_request r = do
    validate_minimum_request_fields ((r.volume_id, "volume_id") ∷ []) r.secrets
    validate_object_id r.volume_id Message.volume_id_empty
    if is_empty r.parameters then returned tt else validate_pool_parameter r.parameters
    validate_csi_volume_capabilities r.volume_capabilities

  unfoldable pub validate_expand_volume_request : ExpandVolumeRequest → Outcome (Unit {0})
  unfolding validate_minimum_request_fields validate_capacity
  validate_expand_volume_request r = do
    validate_minimum_request_fields ((r.volume_id, "volume_id") ∷ []) r.secrets
    validate_capacity r.capacity_range

  unfoldable pub validate_delete_volume_request : VolumeIdRequest → Outcome (Unit {0})
  unfolding validate_minimum_request_fields
  validate_delete_volume_request r =
      validate_minimum_request_fields ((r.volume_id, "volume_id") ∷ []) r.secrets

  unfoldable pub validate_publish_volume_request : PublishVolumeRequest → Outcome (Unit {0})
  unfolding validate_minimum_request_fields
  validate_publish_volume_request r = do
    raise_if r.readonly (Exception.validation Message.readonly_not_supported)
    validate_csi_volume_capability r.volume_capability
    validate_minimum_request_fields ((r.node_id, "node_id") ∷ []) r.secrets
    validate_node_id r.node_id

  unfoldable pub validate_unpublish_volume_request : UnpublishVolumeRequest → Outcome (Unit {0})
  unfolding validate_minimum_request_fields
  validate_unpublish_volume_request r = do
    validate_object_id r.volume_id Message.volume_id_empty
    validate_minimum_request_fields ((r.volume_id, "volume_id") ∷ []) r.secrets
    validate_node_id r.node_id

  unfoldable pub validate_delete_volume_group_request :
      DeleteVolumeGroupRequest → Outcome (Unit {0})
  unfolding validate_minimum_request_fields
  validate_delete_volume_group_request r =
      validate_minimum_request_fields ((r.volume_group_id, "volume_group_id") ∷ []) r.secrets

  unfoldable pub validate_modify_volume_group_request :
      ModifyVolumeGroupRequest → Outcome (Unit {0})
  unfolding validate_minimum_request_fields
  validate_modify_volume_group_request r =
      validate_minimum_request_fields ((r.volume_group_id, "volume_group_id") ∷ []) r.secrets

-- `is_publish_volume_request_exclusive_access`
unfoldable pub is_exclusive_access : PublishVolumeRequest → Bool
is_exclusive_access r = elim r.volume_capability.access_mode [
  | AccessMode.single_node_writer ↦ true
  | _ ↦ false
]
