-- ===== src/Csi/Status.antt =====
-- controllers/servers/csi/exception_handler.py: the status code that each exception class is answered
-- with, and replies.
use ibm_block_csi_driver.Prelude.{◌≡◌, refl, Option, none, some, String}
use ibm_block_csi_driver.Errors.{Exception}
use ibm_block_csi_driver.Outcome.{Outcome, returned, raised}
use ibm_block_csi_driver.Exec.{Exec, pure, try_except}

-- The codes of `grpc.StatusCode` that the servers use.
pub data StatusCode : Type 0 where
  ok unimplemented invalid_argument_code not_found permission_denied_code : StatusCode
  failed_precondition unauthenticated internal aborted out_of_range : StatusCode
  already_exists resource_exhausted : StatusCode

-- What `context.set_details` is given: the text of an exception, or a message of the server.
pub data Details : Type 0 where
  no_details : Details
  text_of : Exception → Details
  message : String → Details

-- The protobuf message classes that the servers reply with.
pub data ResponseType : Type 0 where
  create_volume_response delete_volume_response publish_volume_response : ResponseType
  unpublish_volume_response validate_capabilities_response create_snapshot_response : ResponseType
  delete_snapshot_response expand_volume_response plugin_info_response : ResponseType
  create_volume_group_response delete_volume_group_response : ResponseType
  modify_volume_group_response enable_replication_response : ResponseType
  disable_replication_response promote_volume_response demote_volume_response : ResponseType
  resync_volume_response list_volumes_response get_capacity_response : ResponseType

-- What a call leaves in the gRPC context, and the message that it returns. A body that is `none` is
-- a message with no field set, `response_type()`.
pub record Reply (B : Type 0) : Type 0 where
  pub code : StatusCode
  pub details : Details
  pub response_type : ResponseType
  pub body : Option B

module _ {B : Type 0} where
  abbrev pub success : ResponseType → B → Reply B
  success t b = record { code = ok; details = no_details; response_type = t; body = some b }

  abbrev pub empty_success : ResponseType → Reply B
  empty_success t = record { code = ok; details = no_details; response_type = t; body = none }

  unfoldable pub build_non_ok_response : Details → StatusCode → ResponseType → Reply B
  build_non_ok_response d c t = record { code = c; details = d; response_type = t; body = none }

  unfoldable pub build_error_response : String → StatusCode → ResponseType → Reply B
  unfolding build_non_ok_response
  build_error_response m c t = build_non_ok_response (message m) c t

  unfoldable pub handle_exception : Exception → StatusCode → ResponseType → Reply B
  unfolding build_non_ok_response
  handle_exception e c t = build_non_ok_response (text_of e) c t

-- The table is looked up by the exact class, so a derived class is not found under its base.
unfoldable pub status_codes_by_exception : Exception → StatusCode
status_codes_by_exception Exception.not_implemented = unimplemented
status_codes_by_exception (Exception.validation m) = invalid_argument_code
status_codes_by_exception Exception.invalid_argument = invalid_argument_code
status_codes_by_exception Exception.pool_parameter_is_missing = invalid_argument_code
status_codes_by_exception Exception.virt_snapshot_function_not_supported = invalid_argument_code
status_codes_by_exception Exception.object_not_found = not_found
status_codes_by_exception Exception.host_not_found = not_found
status_codes_by_exception Exception.permission_denied = permission_denied_code
status_codes_by_exception Exception.object_is_still_in_use = failed_precondition
status_codes_by_exception Exception.credentials_error = unauthenticated
status_codes_by_exception _ = internal

-- What the outcome of a method is answered with.
module _ {B : Type 0} where
  unfoldable pub answer : ResponseType → Outcome (Reply B) → Reply B
  unfolding handle_exception
  answer t (returned r) = r
  answer t (raised e) = handle_exception e (status_codes_by_exception e) t

module _ {S B : Type 0} where
  unfoldable pub handle_common_exceptions : Exec S (Reply B) → ResponseType → Exec S (Reply B)
  unfolding handle_exception
  handle_common_exceptions m t =
      try_except m (λ e. pure (handle_exception e (status_codes_by_exception e) t))

  settled :
      (t : ResponseType) (o : Outcome (Reply B)) (s : S)
      → handle_common_exceptions (λ _. (o, s)) t s ≡ (returned (answer t o), s)
  unfolding handle_common_exceptions answer
  settled t (returned r) s = refl
  settled t (raised e) s = refl

  -- Whatever the method does, the wrapped call returns: with the method's own reply, or with the
  -- table's code for the exception that it raised; the state is the one that the method left.
  pub handle_common_exceptions-returns :
      (m : Exec S (Reply B)) (t : ResponseType) (s : S)
      → handle_common_exceptions m t s ≡ (returned (answer t (m s).0), (m s).1)
  unfolding handle_common_exceptions
  handle_common_exceptions-returns m t s = settled t (m s).0 (m s).1
