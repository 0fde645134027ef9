-- ===== src/Examples/Strings.antt =====
-- Examples about the ids, secrets, nodes and parameters of requests.
use ibm_block_csi_driver.Prelude.{
  ◌≤◌, ◌≡◌, refl, Option, none, some, String, [], ◌∷◌, Dict, str_length, join, contains,
}
use ibm_block_csi_driver.Outcome.{returned}
use ibm_block_csi_driver.Requests.Ids.{
  volume, get_object_id, get_object_id_info, normalize_utf8_text,
}
use ibm_block_csi_driver.Requests.Ids.RoundTrip.{get_object_id_info-get_object_id}
use ibm_block_csi_driver.Requests.Secrets.{
  SystemInfo, validate_system_id, validate_secrets, validate_connection_info,
}
use ibm_block_csi_driver.Requests.Secrets.SystemId.{get_object_id_info-validated}
use ibm_block_csi_driver.Requests.Nodes.{Initiators}
use ibm_block_csi_driver.Requests.Parameters.{
  NameLimits, get_object_final_name, chosen_prefix, join_object_prefix_with_name,
}
use ibm_block_csi_driver.Requests.Parameters.Names.{get_object_final_name-bounded}
use ibm_block_csi_driver.Requests.Validation.Accepted.{
  IsAccepted, validate_create_volume_request-IsAccepted,
}
use ibm_block_csi_driver.Requests.Validation.{
  validate_create_volume_request, validate_csi_volume_capabilities, validate_csi_volume_capability,
  validate_pool_parameter, validate_create_volume_source,
}
use ibm_block_csi_driver.Examples.Fixture.{environment, secrets, create_request}

get_object_id_info-get_object_id_example :
    get_object_id_info (get_object_id "A9000" (some "7") (some "6005") (some "s1")) volume
    ≡ returned (record {
      array_type = "A9000";
      system_id = some "s1";
      ids = record { internal_id = some "7"; uid = some "6005" };
    })
unfolding contains normalize_utf8_text
get_object_id_info-get_object_id_example =
    get_object_id_info-get_object_id "A9000" (some "7") (some "6005") refl
      (record { no_colon = refl; no_semicolon = refl })
      (record { no_colon = refl; no_semicolon = refl }) (some "s1") refl

get_object_id_info-validated_example :
    get_object_id_info (get_object_id "A9000" (some "7") (some "6005") (some "s1")) volume
    ≡ returned (record {
      array_type = "A9000";
      system_id = some "s1";
      ids = record { internal_id = some "7"; uid = some "6005" };
    })
unfolding validate_system_id contains
get_object_id_info-validated_example =
    get_object_id_info-validated "s1" "A9000" "7" "6005" refl refl
      (record { no_colon = refl; no_semicolon = refl })
      (record { no_colon = refl; no_semicolon = refl })

abbrev long_id : String
long_id = "abcdefghijabcdefghijabcdefghijabcdefghijabcdefghijabcdefghijabcdefghijabcdefghijabcd"

abbrev system : SystemInfo
system = record { fields = secrets; supported_topologies = some ((("zone", "a") ∷ []) ∷ []) }

abbrev other_system : SystemInfo
other_system = record { fields = secrets; supported_topologies = some ((("zone", "b") ∷ []) ∷ []) }

abbrev config : Dict SystemInfo
config = ("s2", other_system) ∷ ("s1", system) ∷ []

abbrev with_config : Dict String
with_config = ("config", "{}") ∷ []

abbrev fc_node : Initiators
fc_node = record { nvme_nqns = []; fc_wwns = "w1" ∷ []; iscsi_iqns = [] }

abbrev limits : NameLimits
limits = record {
  max_object_name_length = 8;
  max_object_prefix_length = 4;
  default_object_prefix = none;
}

get_object_final_name-bounded_example :
    (p : Option String) × (chosen_prefix (some "ab") limits ≡ returned p)
    × (str_length "ab_gold" ≤ 8)
    × (str_length (join_object_prefix_with_name p "gold") ≤ 8
        → "ab_gold" ≡ join_object_prefix_with_name p "gold")
unfolding get_object_final_name join_object_prefix_with_name join
get_object_final_name-bounded_example =
    get_object_final_name-bounded (λ s. s) (some "ab") "gold" limits refl

validate_create_volume_request-IsAccepted_example :
    IsAccepted environment.load_config (create_request 10)
unfolding validate_create_volume_request validate_secrets validate_connection_info
    validate_csi_volume_capabilities validate_csi_volume_capability validate_pool_parameter
    validate_create_volume_source
validate_create_volume_request-IsAccepted_example =
    validate_create_volume_request-IsAccepted environment.load_config (create_request 10) refl
