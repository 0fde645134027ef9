-- ===== src/Errors.antt =====
-- The exceptions of controllers/array_action/errors.py and controllers/servers/errors.py, by class.
-- A `ValidationException` keeps which message of controllers/servers/messages.py it was given; the
-- formatted texts are not modelled.
use ibm_block_csi_driver.Prelude.{Bool, true, false, String}

pub data Message : Type 0 where
  invalid_secret_config insufficient_data no_system_match secret_missing_connection_info : Message
  secret_missing_topologies invalid_system_id invalid_json invalid_copy_type : Message
  invalid_ear_parameter secret_missing capabilities_not_set unsupported_fs_type : Message
  unsupported_mount_flags unsupported_volume_access_type unsupported_replication_source : Message
  unsupported_access_mode size_negative no_capacity_range pool_missing pool_empty : Message
  wrong_format readonly_not_supported snapshot_source_missing parameter_too_long : Message
  volume_context_mismatch space_efficiency_mismatch pool_mismatch prefix_mismatch : Message
  required_bytes_mismatch volume_id_empty int_expected int_too_small int_too_large : Message
  field_empty volume_source_missing : String → Message

-- The errors of pyds8k that the code tells apart: `NotFound` is a `ClientError`, and all are
-- `ClientException`s.
pub data Ds8kError : Type 0 where
  not_found client_error internal_server_error other_error : Ds8kError

-- The errors of pyxcli that the code tells apart
pub data XcliError : Type 0 where
  illegal_name illegal_value volume_exists pool_missing forbidden_for_user : XcliError
  volume_bad_name source_volume_bad_name target_volume_bad_name host_bad_name : XcliError
  command_failed other_command_error : XcliError

pub data Exception : Type 0 where
  -- servers/errors.py
  validation : Message → Exception
  invalid_node_id object_id_error object_already_processing : Exception
  -- array_action/errors.py: `InvalidArgumentError` and the classes derived from it
  invalid_argument pool_does_not_match_space_efficiency space_efficiency_not_supported : Exception
  pool_does_not_exist pool_parameter_is_missing unsupported_connectivity_type : Exception
  expected_snapshot_but_found_volume : Exception
  -- the other classes
  no_connection_available storage_management_ips_not_supported credentials_error : Exception
  unsupported_storage_version object_not_found volume_name_belongs_to_snapshot : Exception
  volume_creation_error volume_deletion_error volume_already_in_volume_group : Exception
  space_efficiency_mismatch_error volume_already_exists failed_to_find_storage_system_type :
      Exception
  permission_denied multiple_hosts_found host_not_found no_available_lun : Exception
  lun_already_in_use mapping_error volume_already_unmapped volume_not_mapped_to_host : Exception
  unmapping_error volume_already_mapped_to_different_hosts no_iscsi_targets_found : Exception
  snapshot_already_exists host_already_exists volume_group_already_exists : Exception
  no_port_found_by_connectivity_type snapshot_source_pool_mismatch object_is_still_in_use :
      Exception
  invalid_cli_response not_enough_space_in_pool virt_snapshot_function_not_supported : Exception
  no_port_is_valid io_group_is_invalid unsupported_parameter : Exception
  unsupported_parameter_through_partition cannot_change_host_protocol : Exception
  -- Python's own, and any other
  not_implemented key_error type_error attribute_error queue_empty queue_full : Exception
  -- pysvc's `CommandExecutionError` and `CLIFailureError`, with `my_message`
  cli_error : String → Exception
  -- pyds8k's with its `message`, and pyxcli's with its `status`
  ds8k_error : Ds8kError → String → Exception
  xcli_error : XcliError → String → Exception
  runtime_error index_error value_error : Exception
  unexpected : String → Exception

-- `isinstance(ex, InvalidArgumentError)`
unfoldable pub is_invalid_argument : Exception → Bool
is_invalid_argument invalid_argument = true
is_invalid_argument pool_does_not_match_space_efficiency = true
is_invalid_argument space_efficiency_not_supported = true
is_invalid_argument pool_does_not_exist = true
is_invalid_argument pool_parameter_is_missing = true
is_invalid_argument unsupported_connectivity_type = true
is_invalid_argument expected_snapshot_but_found_volume = true
is_invalid_argument _ = false
