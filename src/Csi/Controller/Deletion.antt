-- ===== src/Csi/Controller/Deletion.antt =====
-- DeleteVolume succeeds for a volume that is not there.
use ibm_block_csi_driver.Prelude.{◌≡◌, ◌⊎◌, inl, inr, none, arith}
use ibm_block_csi_driver.Errors.{Exception}
use ibm_block_csi_driver.Exec.{Exec}
use ibm_block_csi_driver.Outcome.{returned, raised}
use ibm_block_csi_driver.Requests.Ids.{ObjectIdInfo, volume, get_object_id_info}
use ibm_block_csi_driver.Requests.Secrets.{
  ArrayConnectionInfo, get_array_connection_info_from_secrets,
}
use ibm_block_csi_driver.Requests.Messages.{VolumeIdRequest}
use ibm_block_csi_driver.Requests.Validation.{validate_delete_volume_request}
use ibm_block_csi_driver.Arrays.Mediator.{ArrayMediator}
use ibm_block_csi_driver.Csi.Status.{ResponseType, empty_success}
use ibm_block_csi_driver.Csi.Session.{Environment, Arrays, with_mediator}
use ibm_block_csi_driver.Csi.Controller.Volumes.{delete_volume, delete_body}

module _ {S : Type 0} (env : Environment) (arrays : Arrays S) (r : VolumeIdRequest) where
  -- A valid request succeeds both where the array deletes the volume and where it says that there is
  -- none, so a call that is made again succeeds again; the mediator is given back in both cases.
  pub delete_volume-succeeds :
      (id_info : ObjectIdInfo) (info : ArrayConnectionInfo) (m : ArrayMediator S)
      (give_back : Exec S (Unit {0})) (s t u x : S)
      → validate_delete_volume_request env.load_config r ≡ returned tt
      → get_object_id_info r.volume_id volume ≡ returned id_info
      → get_array_connection_info_from_secrets env.load_config r.secrets none id_info.system_id
        ≡ returned info
      → arrays.get_mediator info id_info.array_type s ≡ (returned (m, give_back), t)
      → (m.delete_volume id_info.ids.uid info.partition_name t ≡ (returned tt, u))
        ⊎ (m.delete_volume id_info.ids.uid info.partition_name t
            ≡ (raised Exception.object_not_found, u))
      → give_back u ≡ (returned tt, x)
      → delete_volume env arrays r s
        ≡ (returned (empty_success ResponseType.delete_volume_response), x)
  unfolding delete_volume with_mediator delete_body
  delete_volume-succeeds id_info info m give_back s t u x valid id connected got (inl deleted) put =
      ground arith
  delete_volume-succeeds id_info info m give_back s t u x valid id connected got (inr missing) put =
      ground arith
