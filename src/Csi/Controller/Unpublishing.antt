-- ===== src/Csi/Controller/Unpublishing.antt =====
-- ControllerUnpublishVolume succeeds where there is nothing left to unmap.
use ibm_block_csi_driver.Prelude.{Option, ◌≡◌, refl, false, none, some, arith}
use ibm_block_csi_driver.Errors.{Exception}
use ibm_block_csi_driver.Exec.{Exec}
use ibm_block_csi_driver.Outcome.{returned, raised}
use ibm_block_csi_driver.Requests.Ids.{
  ObjectIdInfo, volume, get_object_id_info, normalize_utf8_text,
}
use ibm_block_csi_driver.Requests.Secrets.{
  ArrayConnectionInfo, get_array_connection_info_from_secrets,
}
use ibm_block_csi_driver.Requests.Nodes.{node_name, get_node_initiators}
use ibm_block_csi_driver.Requests.Messages.{UnpublishVolumeRequest}
use ibm_block_csi_driver.Requests.Validation.{validate_unpublish_volume_request}
use ibm_block_csi_driver.Arrays.Mediator.{ArrayMediator, ArrayObject}
use ibm_block_csi_driver.Arrays.Mapping.{is_no_connection, unmap_once, unmap_volume_by_initiators}
use ibm_block_csi_driver.Csi.Status.{ResponseType, empty_success}
use ibm_block_csi_driver.Csi.Session.{Environment, Arrays, with_mediator}
use ibm_block_csi_driver.Csi.Controller.Publishing.{
  controller_unpublish_volume, unpublish_body, unpublish_on, unpublish_caught, verify_if_found,
}

-- The exceptions of a mediator that say that there is nothing to unmap.
pub data IsNothingToUnmap : Exception → Type 0 where
  no_host : IsNothingToUnmap Exception.host_not_found
  unmapped_already : IsNothingToUnmap Exception.volume_already_unmapped
  no_volume : IsNothingToUnmap Exception.object_not_found
  not_mapped : IsNothingToUnmap Exception.volume_not_mapped_to_host

caught :
    (e : Exception)
    → IsNothingToUnmap e
    → unpublish_caught e ≡ returned (empty_success ResponseType.unpublish_volume_response)
unfolding unpublish_caught
caught e no_host = refl
caught e unmapped_already = refl
caught e no_volume = refl
caught e not_mapped = refl

not_retried : (e : Exception) → IsNothingToUnmap e → is_no_connection e ≡ false
not_retried e no_host = refl
not_retried e unmapped_already = refl
not_retried e no_volume = refl
not_retried e not_mapped = refl

module _ {S : Type 0} (env : Environment) (arrays : Arrays S) (r : UnpublishVolumeRequest) where
  -- A valid request, whose volume is not found or is found in the right partition, succeeds after one
  -- try where unmapping raises that the host, the volume or the mapping is not there; the mediator is
  -- given back.
  pub unpublish-nothing_to_unmap :
      (id_info : ObjectIdInfo) (info : ArrayConnectionInfo) (m : ArrayMediator S)
      (give_back : Exec S (Unit {0})) (o : Option ArrayObject) (e : Exception) (s t v u x y : S)
      → IsNothingToUnmap e
      → validate_unpublish_volume_request env.load_config r ≡ returned tt
      → get_object_id_info r.volume_id volume ≡ returned id_info
      → get_array_connection_info_from_secrets env.load_config r.secrets none id_info.system_id
        ≡ returned info
      → arrays.get_mediator info id_info.array_type s ≡ (returned (m, give_back), t)
      → m.get_object_by_id id_info.ids.uid (some volume) false t ≡ (returned o, v)
      → verify_if_found o info.partition_name m v ≡ (returned tt, u)
      → unmap_once m
          (normalize_utf8_text id_info.ids.uid)
          (get_node_initiators env.nodes (node_name r.node_id))
          u
        ≡ (raised e, x)
      → give_back x ≡ (returned tt, y)
      → controller_unpublish_volume env arrays r s
        ≡ (returned (empty_success ResponseType.unpublish_volume_response), y)
  unfolding controller_unpublish_volume unpublish_body unpublish_on with_mediator
      unmap_volume_by_initiators
  unpublish-nothing_to_unmap id_info info m give_back o e s t v u x y nothing valid id connected got
        found verified unmapped put =
      let tried : unmap_volume_by_initiators arrays.retry m (normalize_utf8_text id_info.ids.uid)
            (get_node_initiators env.nodes (node_name r.node_id)) u
          ≡ (raised e, x) =
        arrays.retry.call-other (Unit {0}) is_no_connection 10 _ u x e unmapped
          (not_retried e nothing) in
      ground (arith, caught e nothing)
