-- ===== src/Csi/GroupMembers.antt =====
-- The ids of the members of a group and of a request to change it, in
-- controllers/servers/csi/volume_group_server.py. Two texts are the ids of one volume where they are
-- the same, or one is the NVMe form of the other.
use ibm_block_csi_driver.Prelude.{
  finds, Bool, false, ◌||◌, Option, none, some, String, List, [], ◌∷◌, map, any, ◌==◌,
}
use ibm_block_csi_driver.Errors.{Exception}
use ibm_block_csi_driver.Outcome.{Outcome, returned, raised, ◌>>=◌}
use ibm_block_csi_driver.Requests.Ids.{
  volume, get_object_id, get_object_id_info, normalize_utf8_text,
}
use ibm_block_csi_driver.Arrays.Mediator.{Volume, VolumeGroup}
use ibm_block_csi_driver.Arrays.Nguid.{convert_scsi_id_to_nguid, convert_nguid_to_scsi_id}
use ibm_block_csi_driver.Csi.Responses.{VolumeBody, generate_volume_response}

-- `volumegroup_pb2.VolumeGroup`
pub record VolumeGroupBody : Type 0 where
  pub volume_group_id : String
  pub volumes : List VolumeBody

-- `get_volume_group_id`
unfoldable pub get_volume_group_id : VolumeGroup → String
get_volume_group_id g =
    get_object_id (normalize_utf8_text g.array_type) g.internal_id (some g.name) none

-- `generate_csi_create_volume_group_response` and `generate_csi_modify_volume_group_response`
unfoldable pub created_group : VolumeGroup → VolumeGroupBody
created_group g = record { volume_group_id = get_volume_group_id g; volumes = [] }

unfoldable pub modified_group : VolumeGroup → VolumeGroupBody
modified_group g = record {
  volume_group_id = get_volume_group_id g;
  volumes = map (λ v. generate_volume_response v none none) g.volumes;
}

abbrev is_id : String → Option String → Bool
is_id id none = false
is_id id (some other) = id == other

-- `_is_volume_id_in_volume_group`
unfoldable pub is_in_volume_group : List (Option String) → String → Bool
is_in_volume_group group id =
    any (is_id id) group || any (is_id (convert_scsi_id_to_nguid id)) group

-- `_is_volume_id_in_request`
unfoldable pub is_same_volume : String → String → Bool
unfolding finds
is_same_volume id requested = id == requested || finds (convert_nguid_to_scsi_id id) requested

-- Whether a member of the group is requested; the conversion of `None` is a `TypeError`.
unfoldable pub is_in_request : List String → Option String → Outcome Bool
unfolding is_same_volume
is_in_request [] none = returned false
is_in_request (r ∷ rs) none = raised Exception.type_error
is_in_request requested (some id) = returned (any (is_same_volume id) requested)

-- `_get_volume_ids_from_request`
unfoldable pub get_volume_ids_from_request : List String → Outcome (List String)
get_volume_ids_from_request [] = returned []
get_volume_ids_from_request (id ∷ ids) = do
  info ← get_object_id_info id volume
  rest ← get_volume_ids_from_request ids
  returned (normalize_utf8_text info.ids.uid ∷ rest)

-- `_get_volume_ids_from_volume_group`
unfoldable pub get_volume_ids_from_volume_group : List Volume → List (Option String)
get_volume_ids_from_volume_group volumes = map (λ v. v.id) volumes
