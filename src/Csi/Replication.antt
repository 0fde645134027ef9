-- ===== src/Csi/Replication.antt =====
-- controllers/servers/csi/addons_server.py: enabling, disabling, promoting, demoting and resyncing the
-- replication of a volume or a volume group.
pub mod Roles
use ibm_block_csi_driver.Prelude.{
  Bool, true, false, not, ◌&&◌, Option, none, some, String, ◌==◌, if◌then◌else◌,
}
use ibm_block_csi_driver.Errors.{Exception}
use ibm_block_csi_driver.Outcome.{Outcome, returned, raised}
use ibm_block_csi_driver.Exec.{Exec, pure, raise, lift, ◌>>=◌, ◌>>◌}
use ibm_block_csi_driver.Requests.Ids.{ObjectType, volume, snapshot, volume_group, ObjectIdInfo}
use ibm_block_csi_driver.Requests.Secrets.{
  ArrayConnectionInfo, get_array_connection_info_from_secrets,
}
use ibm_block_csi_driver.Requests.Messages.{AddonsRequest}
use ibm_block_csi_driver.Requests.Addons.{
  mirror, ear, get_addons_replication_type, validate_addons_request,
  generate_addons_replication_request, get_replication_object_type_and_id_info,
}
use ibm_block_csi_driver.Arrays.Mediator.{
  ArrayMediator, ArrayObject, Replication, ReplicationRequest,
}
use ibm_block_csi_driver.Csi.Status.{
  Reply, ResponseType, StatusCode, success, empty_success, build_error_response,
}
use ibm_block_csi_driver.Csi.Session.{Environment, Arrays, with_mediator}
use ibm_block_csi_driver.Csi.Controller.Volumes.{found_or_raise}

abbrev is_volume : ObjectType → Bool
is_volume volume = true
is_volume snapshot = false
is_volume volume_group = false

-- `_validate_replication_object`: whether there is an error message
unfoldable pub is_ear_on_volume : ObjectType → String → Bool
is_ear_on_volume object_type replication_type = is_volume object_type && replication_type == ear

-- `_ensure_replication_idempotency`: whether there is an error message
unfoldable pub differs_in_copy_type : ReplicationRequest → Replication → Bool
differs_in_copy_type r replication =
    r.replication_type == mirror && not (replication.copy_type == r.copy_type)

-- The type of the replies of `PromoteVolume` and `DemoteVolume`
abbrev pub role_response : Bool → ResponseType
role_response true = ResponseType.promote_volume_response
role_response false = ResponseType.demote_volume_response

module _ {S : Type 0} where
  -- `_get_replication_object`
  unfoldable pub get_replication_object :
      ObjectIdInfo → ObjectType → Option String → ArrayMediator S → Exec S ArrayObject
  unfolding found_or_raise
  get_replication_object id_info object_type partition_name m = do
    let uid = if is_volume object_type then id_info.ids.uid else id_info.ids.internal_id
    found ← m.get_object_by_id uid (some object_type) false
    o ← found_or_raise found
    m.verify_volume_partition o partition_name
    pure o

  -- `_ensure_volume_role_for_replication`; where the array does not say whether the volume is primary,
  -- both roles are asked for.
  unfoldable pub ensure_role : Bool → Replication → ArrayMediator S → Exec S (Unit {0})
  ensure_role true r m = elim r.is_primary [
    | none ↦ m.promote_replication_volume r
    | some primary ↦ if primary then pure tt else m.promote_replication_volume r
  ]
  ensure_role false r m = elim r.is_primary [
    | none ↦ m.demote_replication_volume r
    | some primary ↦ if primary then m.demote_replication_volume r else pure tt
  ]

  -- What is done with the replication that the array has, or has not, in the `with` of each RPC
  unfoldable pub enable_found :
      ReplicationRequest → Option Replication → ArrayMediator S → Exec S (Reply (Unit {0}))
  unfolding differs_in_copy_type
  enable_found r none m = do
    m.create_replication r
    pure (empty_success ResponseType.enable_replication_response)
  enable_found r (some replication) m = pure (
      if differs_in_copy_type r replication
      then build_error_response "replication already exists" StatusCode.already_exists
          ResponseType.enable_replication_response
      else empty_success ResponseType.enable_replication_response)

  unfoldable pub disable_found :
      ReplicationRequest → Option Replication → ArrayMediator S → Exec S (Reply (Unit {0}))
  disable_found r none m = pure (empty_success ResponseType.disable_replication_response)
  disable_found r (some replication) m = do
    m.delete_replication replication
    pure (empty_success ResponseType.disable_replication_response)

  unfoldable pub role_found :
      Bool → ReplicationRequest → Option Replication → ArrayMediator S → Exec S (Reply (Unit {0}))
  unfolding ensure_role
  role_found promote r none m = pure (
      build_error_response "could not find replication" StatusCode.failed_precondition
        (role_response promote))
  role_found promote r (some replication) m = do
    ensure_role promote replication m
    pure (empty_success (role_response promote))

  -- The reply's body: whether the replication is ready
  unfoldable pub resync_found :
      ReplicationRequest → Option Replication → ArrayMediator S → Exec S (Reply Bool)
  resync_found r none m = pure (
      build_error_response "could not find replication" StatusCode.failed_precondition
        ResponseType.resync_volume_response)
  resync_found r (some replication) m =
      pure (success ResponseType.resync_volume_response replication.is_ready)

module _ {S B : Type 0}
    (act : ReplicationRequest → Option Replication → ArrayMediator S → Exec S (Reply B)) where
  -- The body of the `with` of each RPC
  unfoldable pub replication_body :
      ObjectIdInfo
      → ObjectType
      → Option String
      → ReplicationRequest
      → ArrayMediator S
      → Exec S (Reply B)
  unfolding get_replication_object
  replication_body id_info object_type partition_name request m = do
    get_replication_object id_info object_type partition_name m
    found ← m.get_replication request
    act request found m

  -- The part that the five RPCs have in common. An EAR replication of a volume is refused with the
  -- response type of EnableVolumeReplication in each of them.
  unfoldable pub replication_rpc : Environment → Arrays S → AddonsRequest → Exec S (Reply B)
  unfolding replication_body is_ear_on_volume
  replication_rpc env arrays r = do
    let t = get_addons_replication_type r
    lift (validate_addons_request env.load_config r t)
    object ← lift (get_replication_object_type_and_id_info r)
    let refused = pure (
        build_error_response "EAR replication is supported only on volume group level"
          StatusCode.failed_precondition ResponseType.enable_replication_response)
    let go_on = (do
      request ← lift (generate_addons_replication_request r t object.1.ids.internal_id)
      info ← lift (get_array_connection_info_from_secrets env.load_config r.secrets none none)
      with_mediator arrays info object.1.array_type
          (replication_body object.1 object.0 info.partition_name request))
    if is_ear_on_volume object.0 t then refused else go_on

module _ {S : Type 0} (env : Environment) (arrays : Arrays S) where
  unfoldable pub enable_volume_replication : AddonsRequest → Exec S (Reply (Unit {0}))
  unfolding replication_rpc enable_found
  enable_volume_replication = replication_rpc enable_found env arrays

  unfoldable pub disable_volume_replication : AddonsRequest → Exec S (Reply (Unit {0}))
  unfolding replication_rpc disable_found
  disable_volume_replication = replication_rpc disable_found env arrays

  -- `PromoteVolume`, `DemoteVolume`: `_ensure_volume_role`
  unfoldable pub promote_volume : AddonsRequest → Exec S (Reply (Unit {0}))
  unfolding replication_rpc role_found
  promote_volume = replication_rpc (role_found true) env arrays

  unfoldable pub demote_volume : AddonsRequest → Exec S (Reply (Unit {0}))
  unfolding replication_rpc role_found
  demote_volume = replication_rpc (role_found false) env arrays

  unfoldable pub resync_volume : AddonsRequest → Exec S (Reply Bool)
  unfolding replication_rpc resync_found
  resync_volume = replication_rpc resync_found env arrays
