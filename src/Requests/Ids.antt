-- ===== src/Requests/Ids.antt =====
-- The ids of volumes, snapshots and volume groups, `array_type[:system_id]:internal_id;uid`, as
-- controllers/servers/utils.py makes and reads them.
pub mod RoundTrip
use ibm_block_csi_driver.Prelude.{
  Bool, true, false, not, ◌||◌, ◌&&◌, Option, none, some, String, List, [], ◌∷◌, split, join,
  contains, truthy, truthy?, length, nat_eq, if◌then◌else◌,
}
use ibm_block_csi_driver.Errors.{Exception, Message}
use ibm_block_csi_driver.Outcome.{Outcome, returned, raised, raise_if, ◌>>=◌, ◌>>◌}

-- The names "volume", "snapshot" and "volumegroup".
pub data ObjectType : Type 0 where
  volume snapshot volume_group : ObjectType

abbrev pub type_name : ObjectType → String
type_name volume = "volume"
type_name snapshot = "snapshot"
type_name volume_group = "volumegroup"

-- `ObjectIds`. In the `VolumeGroupIds` of a group the field `uid` is called `name`.
pub record ObjectIds : Type 0 where
  pub internal_id : Option String
  pub uid : Option String

-- `ObjectIdInfo`; a `VolumeGroupIdInfo` has no system id.
pub record ObjectIdInfo : Type 0 where
  pub array_type : String
  pub system_id : Option String
  pub ids : ObjectIds

-- `_normalize_utf8_text`: a native text has no lone surrogates to replace.
unfoldable pub normalize_utf8_text : Option String → String
normalize_utf8_text none = ""
normalize_utf8_text (some s) = s

abbrev pub ids_value : String → String → String
ids_value internal_id strong_id = join ";" (internal_id ∷ strong_id ∷ [])

-- `_get_object_id`
unfoldable pub get_object_id : String → Option String → Option String → Option String → String
unfolding normalize_utf8_text
get_object_id array_type internal_id strong_id system_id =
    let value = ids_value (normalize_utf8_text internal_id) (normalize_utf8_text strong_id) in
    if truthy? system_id
    then join ":" (array_type ∷ normalize_utf8_text system_id ∷ value ∷ [])
    else join ":" (array_type ∷ value ∷ [])

-- The array type, the system id and the rest of a full id.
unfoldable pub split_id_info : List String → Outcome (String × Option String × String)
split_id_info (array_type ∷ object_id ∷ []) = returned (array_type, none, object_id)
split_id_info (array_type ∷ system_id ∷ object_id ∷ []) =
    returned (array_type, some system_id, object_id)
split_id_info _ = raised Exception.object_id_error

unfoldable pub split_ids : List String → Outcome ObjectIds
split_ids (strong_id ∷ []) = returned (record { internal_id = none; uid = some strong_id })
split_ids (internal_id ∷ strong_id ∷ []) =
    returned (record { internal_id = some internal_id; uid = some strong_id })
split_ids _ = raised Exception.object_id_error

-- A volume group has no system id in its info.
abbrev system_id_of : ObjectType → Option String → Option String
system_id_of volume_group s = none
system_id_of volume s = s
system_id_of snapshot s = s

unfoldable pub get_object_id_info : String → ObjectType → Outcome ObjectIdInfo
unfolding split_id_info split_ids
get_object_id_info full_object_id object_type = do
  info ← split_id_info (split ":" full_object_id)
  found ← split_ids (split ";" info.2)
  returned
      (record { array_type = info.0; system_id = system_id_of object_type info.1; ids = found })

-- `_validate_object_id`
unfoldable pub validate_object_id : String → Message → Outcome (Unit {0})
validate_object_id object_id missing = do
  raise_if (not (truthy object_id)) (Exception.validation missing)
  raise_if (not (contains ":" object_id)) Exception.object_id_error
  let parts = length (split ":" object_id)
  raise_if (not (nat_eq parts 2 || nat_eq parts 3)) (Exception.validation Message.wrong_format)
