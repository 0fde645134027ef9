-- ===== src/Csi/Replication/Roles.antt =====
-- What the calls of the replication service do to the array, in each state of the replication.
use ibm_block_csi_driver.Prelude.{
  ◌≡◌, refl, Bool, true, false, Option, none, some, String, eq_iff, not, if◌then◌else◌, arith,
}
use ibm_block_csi_driver.Outcome.{returned}
use ibm_block_csi_driver.Exec.{Exec}
use ibm_block_csi_driver.Requests.Ids.{ObjectType, volume, ObjectIdInfo}
use ibm_block_csi_driver.Requests.Messages.{AddonsRequest}
use ibm_block_csi_driver.Requests.Addons.{
  ear, get_addons_replication_type, validate_addons_request,
  get_replication_object_type_and_id_info,
}
use ibm_block_csi_driver.Arrays.Mediator.{
  ArrayMediator, ArrayObject, Replication, ReplicationRequest,
}
use ibm_block_csi_driver.Csi.Status.{
  Reply, ResponseType, StatusCode, empty_success, build_error_response,
}
use ibm_block_csi_driver.Csi.Session.{Environment, Arrays}
use ibm_block_csi_driver.Csi.Replication.{
  differs_in_copy_type, get_replication_object, enable_found, disable_found, role_found,
  role_response, replication_body, replication_rpc,
}

-- The array says that the volume has the role already.
abbrev pub has_role : Bool → Option Bool → Bool
has_role promote none = false
has_role promote (some primary) = if promote then primary else not primary

module _ {S : Type 0} (m : ArrayMediator S) (r : ReplicationRequest) where
  -- Promoting a volume that the array says is primary, and demoting one that it says is secondary,
  -- succeeds and changes nothing; otherwise the array is asked for the change once, and the call
  -- succeeds where the array does it. Where there is no replication, nothing is changed and the call
  -- is FAILED_PRECONDITION.
  role_found-all :
      (promote : Bool) (replication : Replication) (s t : S)
      → (if promote
          then m.promote_replication_volume replication s
          else m.demote_replication_volume replication s)
        ≡ (returned tt, t)
      → (role_found promote r (some replication) m s ≡ (
        returned (empty_success (role_response promote)),
        if has_role promote replication.is_primary then s else t,
      ))
        × (role_found promote r none m s ≡ (
          returned (
              build_error_response "could not find replication" StatusCode.failed_precondition
                (role_response promote)),
          s,
        ))
  unfolding role_found
  role_found-all true replication s t h = (ground arith, refl)
  role_found-all false replication s t h = (ground arith, refl)

  -- Enabling a replication that is there with the wanted copy type (or of the EAR type), and disabling
  -- one that is not there, succeed and change nothing after the array has been asked for it.
  replication_body-idempotent :
      (id_info : ObjectIdInfo) (object_type : ObjectType) (partition : Option String)
      (o : ArrayObject) (replication : Replication) (s t u : S)
      → get_replication_object id_info object_type partition m s ≡ (returned o, t)
      → (m.get_replication r t ≡ (returned (some replication), u)
          → differs_in_copy_type r replication ≡ false
          → replication_body enable_found id_info object_type partition r m s
            ≡ (returned (empty_success ResponseType.enable_replication_response), u))
        × (m.get_replication r t ≡ (returned none, u)
            → replication_body disable_found id_info object_type partition r m s
              ≡ (returned (empty_success ResponseType.disable_replication_response), u))
  unfolding replication_body enable_found disable_found
  replication_body-idempotent id_info object_type partition o replication s t u found =
      (λ h k. ground arith, λ h. ground arith)

module _ {S B : Type 0} (env : Environment) (arrays : Arrays S)
    (act : ReplicationRequest → Option Replication → ArrayMediator S → Exec S (Reply B)) where
  -- Whatever the RPC, a valid request for an EAR replication of a volume reaches no array, and its
  -- reply has the type of EnableVolumeReplication.
  replication_rpc-refuses :
      (r : AddonsRequest) (id_info : ObjectIdInfo) (s : S)
      → get_addons_replication_type r ≡ ear
      → validate_addons_request env.load_config r ear ≡ returned tt
      → get_replication_object_type_and_id_info r ≡ returned (volume, id_info)
      → replication_rpc act env arrays r s ≡ (
        returned (
            build_error_response "EAR replication is supported only on volume group level"
              StatusCode.failed_precondition ResponseType.enable_replication_response),
        s,
      )
  unfolding replication_rpc
  replication_rpc-refuses r id_info s t valid object =
      ground (arith, eq_iff (get_addons_replication_type r) ear)
