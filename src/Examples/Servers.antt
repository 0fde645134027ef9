-- ===== src/Examples/Servers.antt =====
-- Examples about the handlers and the locks.
use ibm_block_csi_driver.Prelude.{
  ℕ, ◌≤◌, ◌≡◌, refl, none, some, String, [], ◌∷◌, inl, split, contains, lower, insert,
}
use ibm_block_csi_driver.Errors.{Exception}
use ibm_block_csi_driver.Outcome.{Outcome, returned, raised}
use ibm_block_csi_driver.Exec.{Exec, pure, raise}
use ibm_block_csi_driver.Requests.Ids.{get_object_id_info, validate_object_id, normalize_utf8_text}
use ibm_block_csi_driver.Requests.Secrets.{
  get_array_connection_info_from_secrets, validate_secrets, validate_connection_info,
  connection_info,
}
use ibm_block_csi_driver.Requests.Validation.{
  validate_delete_volume_request, validate_unpublish_volume_request, validate_node_id,
}
use ibm_block_csi_driver.Arrays.Mediator.{ArrayMediator}
use ibm_block_csi_driver.Requests.Parameters.{get_object_final_name, join_object_prefix_with_name}
use ibm_block_csi_driver.Arrays.Mapping.{unmap_once}
use ibm_block_csi_driver.Csi.Status.{
  Reply, ResponseType, StatusCode, success, empty_success, answer, build_error_response,
}
use ibm_block_csi_driver.Csi.Lock.{Process, in_use, enter, add_to_ids_in_use, csi_method}
use ibm_block_csi_driver.Csi.Lock.Wrapper.{csi_method-releases}
use ibm_block_csi_driver.Csi.Lock.Exclusion.{
  System, Reach, here, next, enters, start, count, exclusive,
}
use ibm_block_csi_driver.Csi.Responses.{generate_volume_response}
use ibm_block_csi_driver.Csi.Controller.Volumes.{delete_volume}
use ibm_block_csi_driver.Csi.Controller.CreateVolume.{create_volume_body, failed, source_id_of}
use ibm_block_csi_driver.Csi.Controller.Snapshots.{same_text}
use ibm_block_csi_driver.Csi.Controller.Publishing.{controller_unpublish_volume, verify_if_found}
use ibm_block_csi_driver.Csi.Controller.Deletion.{delete_volume-succeeds}
use ibm_block_csi_driver.Csi.Controller.Creation.{
  create_volume_body-existing, create_volume_body-copy,
}
use ibm_block_csi_driver.Csi.Controller.Unpublishing.{no_host, unpublish-nothing_to_unmap}
use ibm_block_csi_driver.Csi.GroupMembers.{
  modified_group, is_in_volume_group, is_in_request, get_volume_ids_from_request,
  get_volume_ids_from_volume_group,
}
use ibm_block_csi_driver.Csi.VolumeGroups.{modify_body}
use ibm_block_csi_driver.Csi.VolumeGroups.Membership.{modify_body-same}
use ibm_block_csi_driver.Arrays.Mediator.{VolumeGroup, volume_object}
use ibm_block_csi_driver.Examples.Fixture.{
  array, arrays, counted, gold, environment, connection, wanted, volume_request, unpublish_request,
}

-- A first call of a thread.
abbrev first_in : System
first_in = record {
  process = record { locks = ("volume_id", "v1" ∷ []) ∷ []; arrays = tt };
  holders = record { thread = 1; key = "volume_id"; id = "v1" } ∷ [];
}

entered : Reach start first_in
unfolding enter in_use add_to_ids_in_use insert
entered = next here (enters 1 "volume_id" "v1" refl refl)

exclusive_example : count "volume_id" "v1" first_in.holders ≤ 1
exclusive_example = exclusive entered "volume_id" "v1"

abbrev idle : Process ℕ
idle = record { locks = []; arrays = 0 }

-- A handler that changes the array and then raises.
abbrev failing : Exec ℕ (Reply (Unit {0}))
failing s = (raised Exception.object_not_found, 1)

abbrev call : Outcome (Reply (Unit {0})) × Process ℕ
call = csi_method "volume_id" "v1" ResponseType.delete_volume_response failing idle

csi_method-releases_example :
    (call.0
      ≡ returned (answer ResponseType.delete_volume_response (raised Exception.object_not_found)))
    × (call.1.arrays ≡ 1)
    × ((k i : String) → in_use k i call.1.locks ≡ in_use k i [])
unfolding in_use
csi_method-releases_example =
    csi_method-releases "volume_id" "v1" ResponseType.delete_volume_response failing idle refl refl

abbrev busy : Process ℕ
busy = record { locks = ("volume_id", "v1" ∷ []) ∷ []; arrays = 0 }

delete_volume-succeeds_example :
    delete_volume environment (arrays array) (volume_request "A9000:7;6005") 0
    ≡ (returned (empty_success ResponseType.delete_volume_response), 1)
unfolding validate_delete_volume_request get_object_id_info get_array_connection_info_from_secrets
    validate_secrets validate_connection_info split connection_info lower
delete_volume-succeeds_example =
    delete_volume-succeeds environment (arrays array) (volume_request "A9000:7;6005")
      (record {
        array_type = "A9000";
        system_id = none;
        ids = record { internal_id = some "7"; uid = some "6005" };
      })
      connection array (pure tt) 0 0 1 1 refl refl refl refl (inl refl) refl

-- No volume is left on this array.
abbrev bare : ArrayMediator ℕ
bare = record array {
  get_object_by_id = λ id t snap. pure none;
  get_volume = λ name pool snap. raise Exception.object_not_found;
}

unpublish_example :
    controller_unpublish_volume environment (arrays array) unpublish_request 0
    ≡ (returned (empty_success ResponseType.unpublish_volume_response), 0)
unfolding validate_unpublish_volume_request get_object_id_info
    get_array_connection_info_from_secrets unmap_once verify_if_found validate_object_id contains
    split validate_secrets validate_connection_info validate_node_id connection_info lower
unpublish_example =
    unpublish-nothing_to_unmap environment (arrays array) unpublish_request
      (record {
        array_type = "A9000";
        system_id = none;
        ids = record { internal_id = some "7"; uid = some "6005" };
      })
      connection array (pure tt) (some (volume_object gold)) Exception.host_not_found 0 0 0 0 0 0
      no_host refl refl refl refl refl refl refl refl

create_volume_body-existing_example :
    create_volume_body counted (λ t. t) (wanted 50 none) "p" array 0 ≡ (
      returned
          (success ResponseType.create_volume_response (generate_volume_response gold none none)),
      0,
    )
unfolding source_id_of get_object_final_name join_object_prefix_with_name
create_volume_body-existing_example =
    create_volume_body-existing counted array (wanted 50 none) (λ t. t) "gold" "p" gold 0 0 0 refl
      refl refl refl refl

create_volume_body-copy_example :
    create_volume_body counted (λ t. t) (wanted 50 (some "6006")) "p" array 0
    ≡ (returned (failed "created from a different source" StatusCode.already_exists), 0)
unfolding source_id_of build_error_response same_text get_object_final_name
    join_object_prefix_with_name
create_volume_body-copy_example =
    create_volume_body-copy counted array (wanted 50 (some "6006")) (λ t. t) "gold" "p" gold 0 0 0
      refl refl refl refl refl

-- A group with one volume.
abbrev gold_group : VolumeGroup
gold_group = record {
  name = "g";
  id = some "1";
  internal_id = some "1";
  array_type = some "A9000";
  volumes = gold ∷ [];
  partition_name = none;
}

abbrev with_group : ArrayMediator ℕ
with_group = record array { get_volume_group = λ name. pure gold_group }

modify_body-same_example :
    modify_body ("A9000:7;6005" ∷ []) "g" connection with_group 0
    ≡ (returned (success ResponseType.modify_volume_group_response (modified_group gold_group)), 0)
unfolding get_volume_ids_from_request get_volume_ids_from_volume_group get_object_id_info split
    is_in_volume_group is_in_request normalize_utf8_text
modify_body-same_example =
    modify_body-same with_group ("A9000:7;6005" ∷ []) ("6005" ∷ []) "g" connection gold_group
      gold_group 0 0 0 0 refl refl refl (refl, tt) (refl, tt) refl
