-- ===== src/Csi/Responses.antt =====
-- The bodies of the replies of the controller service, and the checks of parameters against a volume
-- that is there: controllers/servers/utils.py.
use ibm_block_csi_driver.Prelude.{
  starts_with, ℕ, Bool, false, not, ◌&&◌, ◌||◌, Option, none, some, String, List, [], ◌∷◌, map,
  Dict, lookup, insert, is_empty, all, join, truthy, elem, lower, ltb, ◌==◌, if◌then◌else◌,
}
use ibm_block_csi_driver.Errors.{Exception, Message}
use ibm_block_csi_driver.Outcome.{Outcome, returned, raised, raise_if, ◌>>◌}
use ibm_block_csi_driver.Requests.Ids.{ObjectType, snapshot, get_object_id, normalize_utf8_text}
use ibm_block_csi_driver.Requests.Nodes.{nvme_over_fc, nvme_over_roce, fibre_channel, iscsi}
use ibm_block_csi_driver.Requests.Messages.{
  mount, block, no_access_type, VolumeCapability, ContentSource, from_snapshot, from_volume,
  CreateVolumeRequest,
}
use ibm_block_csi_driver.Arrays.Mediator.{Volume, Snapshot, ArrayInitiators, ports, targets}

-- `csi_pb2.Volume`
pub record VolumeBody : Type 0 where
  pub capacity_bytes : ℕ
  pub volume_id : String
  pub content_source : Option ContentSource

-- `csi_pb2.Snapshot`, without its time stamp
pub record SnapshotBody : Type 0 where
  pub size_bytes : ℕ
  pub snapshot_id : String
  pub source_volume_id : String
  pub ready_to_use : Bool

pub record ExpandBody : Type 0 where
  pub capacity_bytes : ℕ
  pub node_expansion_required : Bool

pub record ConfirmedBody : Type 0 where
  pub volume_context : Dict String
  pub volume_capabilities : List VolumeCapability
  pub parameters : Dict String

-- `get_volume_id` and `get_snapshot_id`
unfoldable pub get_volume_id : Volume → Option String → String
get_volume_id v system_id =
    get_object_id (normalize_utf8_text v.array_type) v.internal_id v.id system_id

unfoldable pub content_source_of : Option String → Option ObjectType → Option ContentSource
content_source_of none t = none
content_source_of (some id) (some snapshot) = if truthy id then some (from_snapshot id) else none
content_source_of (some id) t = if truthy id then some (from_volume id) else none

-- `generate_csi_create_volume_response` and `_generate_volume_response`
unfoldable pub generate_volume_response : Volume → Option String → Option ObjectType → VolumeBody
unfolding content_source_of get_volume_id
generate_volume_response v system_id source_type = record {
  capacity_bytes = v.capacity_bytes;
  volume_id = get_volume_id v system_id;
  content_source = content_source_of v.source_id source_type;
}

-- `generate_csi_create_snapshot_response`
unfoldable pub generate_snapshot_response : Snapshot → Option String → String → SnapshotBody
unfolding get_volume_id
generate_snapshot_response s system_id source_volume_id = record {
  size_bytes = s.capacity_bytes;
  snapshot_id = get_volume_id s.volume system_id;
  source_volume_id = source_volume_id;
  ready_to_use = s.is_ready;
}

-- `_get_supported_capability`: a mount keeps only its file system type.
unfoldable pub get_supported_capability : VolumeCapability → VolumeCapability
get_supported_capability cap = record {
  access_type = (elim cap.access_type [
    | mount fs_type flags ↦ mount fs_type []
    | block ↦ block
    | no_access_type ↦ block
  ]);
  access_mode = cap.access_mode;
}

-- `generate_csi_validate_volume_capabilities_response`
unfoldable pub generate_confirmed_response :
    Dict String → List VolumeCapability → Dict String → ConfirmedBody
unfolding get_supported_capability
generate_confirmed_response context caps parameters = record {
  volume_context = context;
  volume_capabilities = map get_supported_capability caps;
  parameters = parameters;
}

-- `_get_context_from_volume`; a volume without an array type has `None` there.
unfoldable pub get_context_from_volume : Volume → Dict (Option String)
get_context_from_volume v =
    ("volume_name", some v.name)
    ∷ ("array_address", some (join "," v.array_address))
    ∷ ("pool_name", some v.pool)
    ∷ ("storage_type", v.array_type)
    ∷ []

abbrev is_text : String → Option String → Bool
is_text s none = false
is_text s (some t) = s == t

abbrev is_item : Option String → Option String → Bool
is_item none t = false
is_item (some s) t = is_text s t

-- The request's context has the items of the volume's and no others.
unfoldable pub same_items : Dict String → Dict (Option String) → Bool
same_items d e =
    all (λ i. elim (lookup i.0 e) [ none ↦ false | some v ↦ is_text i.1 v ]) d
    && all (λ i. is_item (lookup i.0 d) i.1) e

unfoldable pub validate_volume_context_match_volume : Dict String → Volume → Outcome (Unit {0})
unfolding get_context_from_volume same_items
validate_volume_context_match_volume context v =
    raise_if (not (is_empty context) && not (same_items context (get_context_from_volume v)))
      (Exception.validation Message.volume_context_mismatch)

-- `_validate_parameter_matches_volume`: a parameter that is not given is not compared.
unfoldable pub validate_parameter_matches_volume :
    Option String → (String → Bool) → Message → Outcome (Unit {0})
validate_parameter_matches_volume none cmp m = returned tt
validate_parameter_matches_volume (some value) cmp m =
    raise_if (truthy value && not (cmp value)) (Exception.validation m)

-- `_validate_space_efficiency_match`
unfoldable pub validate_space_efficiency_match : Option String → Volume → Outcome (Unit {0})
unfolding validate_parameter_matches_volume
validate_space_efficiency_match space_efficiency v =
    validate_parameter_matches_volume space_efficiency
      (λ se. elem (lower se) v.space_efficiency_aliases) Message.space_efficiency_mismatch

unfoldable pub validate_parameters_match_volume : Dict String → Volume → Outcome (Unit {0})
unfolding validate_space_efficiency_match starts_with
validate_parameters_match_volume parameters v = do
  validate_space_efficiency_match (lookup "SpaceEfficiency" parameters) v
  validate_parameter_matches_volume (lookup "pool" parameters) (λ p. p == v.pool)
      Message.pool_mismatch
  validate_parameter_matches_volume (lookup "volume_name_prefix" parameters)
      (λ p. starts_with (join "_" (p ∷ "" ∷ [])) v.name) Message.prefix_mismatch

unfoldable pub validate_parameters_match_source_volume :
    Option String → ℕ → Volume → Outcome (Unit {0})
unfolding validate_space_efficiency_match
validate_parameters_match_source_volume space_efficiency required_bytes v = do
  validate_space_efficiency_match space_efficiency v
  raise_if (ltb v.capacity_bytes required_bytes)
      (Exception.validation Message.required_bytes_mismatch)

abbrev with_items : Dict String → Dict String → Dict String
with_items context [] = context
with_items context ((key, value) ∷ more) = with_items (insert key value context) more

-- The target that carries the array's serial goes under its own key.
unfoldable pub target_items : Dict (List String) → Dict String
target_items [] = []
target_items ((initiator, ips) ∷ more) =
    let key =
      if initiator == "ARRAY_SERIAL_PARAM" then "PUBLISH_CONTEXT_ARRAY_SERIAL" else initiator in
    (key, join "," ips) ∷ target_items more

unfoldable pub array_iqns : Dict (List String) → List String
array_iqns [] = []
array_iqns ((initiator, ips) ∷ more) =
    let rest = array_iqns more in
    if initiator == "ARRAY_SERIAL_PARAM" then rest else initiator ∷ rest

-- Iterating over a dict gives its keys; a list has no `items`.
abbrev joined : ArrayInitiators → String
joined (ports ps) = join "," ps
joined (targets ts) = join "," (map (λ t. t.0) ts)

abbrev publish_targets : Dict String → ArrayInitiators → Outcome (Dict String)
publish_targets context (ports ps) = raised Exception.attribute_error
publish_targets context (targets ts) = returned (
    insert "PUBLISH_CONTEXT_ARRAY_IQN" (join "," (array_iqns ts))
      (with_items context (target_items ts)))

-- `generate_csi_publish_volume_response`, with the names of common/config.yaml. A protobuf map takes
-- no `None`.
unfoldable pub generate_publish_response :
    String → Option String → ArrayInitiators → Outcome (Dict String)
unfolding target_items array_iqns
generate_publish_response lun none array_initiators = raised Exception.type_error
generate_publish_response lun (some t) array_initiators =
    let context = ("PUBLISH_CONTEXT_LUN", lun) ∷ ("PUBLISH_CONTEXT_CONNECTIVITY", t) ∷ [] in
    if t == fibre_channel
    then returned (insert "PUBLISH_CONTEXT_ARRAY_FC_INITIATORS" (joined array_initiators) context)
    else if t == iscsi || t == nvme_over_roce
    then publish_targets context array_initiators
    else if t == nvme_over_fc
    then returned (insert "PUBLISH_CONTEXT_ARRAY_NVME_INITIATORS" (joined array_initiators) context)
    else returned context

-- `get_volume_topologies`: the first of the preferred ones
unfoldable pub get_volume_topologies : CreateVolumeRequest → Option (Dict String)
get_volume_topologies r = elim r.preferred_topologies [
  | none ↦ none
  | some ts ↦ elim ts [ [] ↦ none | t ∷ rest ↦ some t ]
]
