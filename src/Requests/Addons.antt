-- ===== src/Requests/Addons.antt =====
-- The requests of the replication service (CSI addons), in controllers/servers/utils.py.
use ibm_block_csi_driver.Prelude.{
  not, ◌||◌, Option, none, some, String, List, [], ◌∷◌, ◌++◌, Dict, lookup, lookup_or, has_key,
  truthy, ◌==◌, if◌then◌else◌,
}
use ibm_block_csi_driver.Errors.{Exception, Message}
use ibm_block_csi_driver.Outcome.{Outcome, returned, raised, raise_if, ◌>>=◌, ◌>>◌}
use ibm_block_csi_driver.Requests.Ids.{
  ObjectType, volume, volume_group, ObjectIdInfo, get_object_id_info,
}
use ibm_block_csi_driver.Requests.Secrets.{SystemInfo}
use ibm_block_csi_driver.Requests.Messages.{
  AddonsRequest, no_fields, of_volume_group, of_volume, of_other_type,
}
use ibm_block_csi_driver.Requests.Validation.{validate_minimum_request_fields}
use ibm_block_csi_driver.Arrays.Mediator.{ReplicationRequest}

abbrev pub mirror : String
mirror = "mirror"

abbrev pub ear : String
ear = "ear"

-- `get_addons_replication_type`
unfoldable pub get_addons_replication_type : AddonsRequest → String
get_addons_replication_type r = if has_key "replication_policy" r.parameters then ear else mirror

abbrev id_fields : AddonsRequest → List (String × String)
id_fields r = elim r.replication_source [ none ↦ (r.volume_id, "volume_id") ∷ [] | some s ↦ [] ]

abbrev handle_fields : String → AddonsRequest → List (String × String)
handle_fields t r = if t == mirror then (r.replication_id, "replication_id") ∷ [] else []

-- `_validate_addons_request_for_replication_id` and `_validate_addons_request_for_system_id`
unfoldable pub validate_no_mirror_fields : AddonsRequest → Outcome (Unit {0})
validate_no_mirror_fields r = do
  raise_if (truthy r.replication_id) (Exception.validation Message.invalid_ear_parameter)
  raise_if (truthy (lookup_or "system_id" "" r.parameters))
      (Exception.validation Message.invalid_ear_parameter)

unfoldable pub validate_copy_type : Dict String → Outcome (Unit {0})
validate_copy_type parameters = elim (lookup "copy_type" parameters) [
  | none ↦ returned tt
  | some t ↦
      raise_if (not (t == "sync" || t == "async")) (Exception.validation Message.invalid_copy_type)
]

unfoldable pub validate_addons_request :
    (String → Option (Dict SystemInfo)) → AddonsRequest → String → Outcome (Unit {0})
unfolding validate_no_mirror_fields validate_copy_type
validate_addons_request loads r t = do
  validate_minimum_request_fields loads (id_fields r ++ handle_fields t r) r.secrets
  if t == ear then validate_no_mirror_fields r else returned tt
  validate_copy_type r.parameters

-- `_get_other_volume_internal_id`
unfoldable pub get_other_volume_internal_id : AddonsRequest → String → Outcome (Option String)
get_other_volume_internal_id r t =
    if t == mirror
    then (do info ← get_object_id_info r.replication_id volume; returned info.ids.internal_id)
    else returned none

unfoldable pub generate_addons_replication_request :
    AddonsRequest → String → Option String → Outcome ReplicationRequest
unfolding get_other_volume_internal_id
generate_addons_replication_request r t volume_internal_id = do
  other ← get_other_volume_internal_id r t
  returned (record {
    volume_internal_id = volume_internal_id;
    other_volume_internal_id = other;
    other_system_id = lookup "system_id" r.parameters;
    copy_type = lookup_or "copy_type" "sync" r.parameters;
    replication_type = t;
    replication_policy = lookup "replication_policy" r.parameters;
  })

abbrev with_type : String → ObjectType → Outcome (ObjectType × ObjectIdInfo)
with_type id t = do info ← get_object_id_info id t; returned (t, info)

-- `get_replication_object_type_and_id_info`
unfoldable pub get_replication_object_type_and_id_info :
    AddonsRequest → Outcome (ObjectType × ObjectIdInfo)
get_replication_object_type_and_id_info r = elim r.replication_source [
  | none ↦ with_type r.volume_id volume
  | some s ↦ elim s [
    | no_fields ↦ with_type r.volume_id volume
    | of_volume_group id ↦ with_type id volume_group
    | of_volume id ↦ with_type id volume
    | of_other_type ↦ raised (Exception.validation Message.unsupported_replication_source)
  ]
]
