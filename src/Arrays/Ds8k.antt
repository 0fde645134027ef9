-- ===== src/Arrays/Ds8k.antt =====
-- controllers/array_action/array_mediator_ds8k.py: the mediator of the DS8000 arrays. The REST client, whose
-- calls pyds8k makes, is a parameter: a record of its methods over a state of the array. Numbers in
-- answers are read as numbers.
pub mod Luns
pub mod Volumes
pub mod Snapshots
pub mod Hosts
pub mod Identifiers
pub mod Lookup
pub mod Deletion
use ibm_block_csi_driver.Prelude.{
  ℕ, ◌-◌, Bool, true, false, not, ◌&&◌, ◌||◌, Option, none, some, String, List, [], ◌∷◌, any, finds,
  upper, lower, join, split, truthy, str_drop, str_length, ◌==◌, if◌then◌else◌,
}
use Prim.Native.String.{◌++◌ as ◌++ˢ◌}
use ibm_block_csi_driver.Errors.{Exception, Ds8kError}
use ibm_block_csi_driver.Outcome.{Outcome, returned, raised}
use ibm_block_csi_driver.Exec.{Exec, pure, raise, raise_if, lift, try_except, ◌>>=◌, ◌>>◌}
use ibm_block_csi_driver.Arrays.Mediator.{Volume, Snapshot}

pub record Flashcopy : Type 0 where
  pub id : String
  pub sourcevolume : String
  pub targetvolume : String
  pub backgroundcopy : String

pub record FlashcopyProcess : Type 0 where
  pub state : String
  pub out_of_sync_tracks : String

pub record ApiVolume : Type 0 where
  pub id : String
  pub name : String
  pub cap : ℕ
  pub pool : String
  pub tp : String
  pub flashcopy : List Flashcopy

-- `mappings_briefs` is the volume ids and LUN ids of a host, `login_ports` the names and states of its ports.
pub record ApiHost : Type 0 where
  pub name : String
  pub mappings_briefs : List (String × String)
  pub host_ports_briefs : List String
  pub login_ports : List (String × String)

pub record SystemInfo : Type 0 where
  pub id : String
  pub bundle : String
  pub wwnn : String

pub record Ds8kClient (S : Type 0) : Type 0 where
  pub get_system : Exec S SystemInfo
  pub get_volume : String → Exec S ApiVolume
  pub get_volumes_by_pool : String → Exec S (List ApiVolume)
  pub get_flashcopies_by_volume : String → Exec S (List Flashcopy)
  pub get_flashcopies : String → Exec S FlashcopyProcess
  pub create_volume : String → ℕ → String → String → Exec S ApiVolume
  pub extend_volume : String → ℕ → Exec S (Unit {0})
  pub delete_volume : String → Exec S (Unit {0})
  pub create_flashcopy : String → String → List String → Exec S String
  pub delete_flashcopy : String → Exec S (Unit {0})
  pub get_hosts : Exec S (List ApiHost)
  pub get_host : String → Exec S ApiHost
  pub get_host_mappings : String → Exec S (List (String × String))
  pub map_volume_to_host : String → String → Exec S String
  pub unmap_volume_from_host : String → String → Exec S (Unit {0})

-- The words of pyds8k's `types`, which the code passes on
pub record Ds8kTypes : Type 0 where
  pub tp_ese : String
  pub tp_none : String
  pub option_per : String
  pub option_nbc : String
  pub option_pset : String

-- `code in str(ex.message).upper()`
abbrev pub has : String → String → Bool
has message code = finds code (upper message)

module _ {S A : Type 0} where
  -- `except ClientException as ex:`
  abbrev on_client : (Ds8kError → String → Exec S A) → Exception → Exec S A
  on_client handler (Exception.ds8k_error kind message) = handler kind message
  on_client handler e = raise e

  abbrev pub except_client : Exec S A → (Ds8kError → String → Exec S A) → Exec S A
  except_client m handler = try_except m (on_client handler)

  -- `except NotFound:  …  except ClientException as ex:  …`
  abbrev pub not_found_or :
      Exec S A → (Ds8kError → String → Exec S A) → Ds8kError → String → Exec S A
  not_found_or missing other Ds8kError.not_found message = missing
  not_found_or missing other kind message = other kind message

abbrev pub reraise : {S A : Type 0} → Ds8kError → String → Exec S A
reraise kind message = raise (Exception.ds8k_error kind message)

-- `scsi_id_to_volume_id`: the last four characters
unfoldable pub scsi_id_to_volume_id : String → String
scsi_id_to_volume_id scsi_id = str_drop (str_length scsi_id - 4) scsi_id

-- `_generate_volume_scsi_identifier`
unfoldable pub generate_volume_scsi_identifier : String → String → String
generate_volume_scsi_identifier wwnn volume_id =
    "6" ++ˢ (str_drop 1 wwnn ++ˢ ("000000000000" ++ˢ volume_id))

-- `is_snapshot`
unfoldable pub is_snapshot : ApiVolume → Bool
is_snapshot v = any (λ f. f.targetvolume == v.id && (f.backgroundcopy == "disabled")) v.flashcopy

unfoldable pub flashcopies_as_target : String → List Flashcopy → List Flashcopy
flashcopies_as_target id [] = []
flashcopies_as_target id (f ∷ fs) =
    let rest = flashcopies_as_target id fs in if f.targetvolume == id then f ∷ rest else rest

abbrev the_only : List Flashcopy → Option Flashcopy
the_only (f ∷ []) = some f
the_only _ = none

-- `get_flashcopy_as_target_if_exists`
unfoldable pub get_flashcopy_as_target_if_exists : ApiVolume → Option Flashcopy
unfolding flashcopies_as_target
get_flashcopy_as_target_if_exists v = the_only (flashcopies_as_target v.id v.flashcopy)

module _ (types : Ds8kTypes) where
  -- `get_array_space_efficiency`
  unfoldable pub get_array_space_efficiency : Option String → String
  get_array_space_efficiency none = types.tp_none
  get_array_space_efficiency (some s) = if lower s == "thin" then types.tp_ese else types.tp_none

  -- `_get_space_efficiency_aliases`
  unfoldable pub get_space_efficiency_aliases : String → Outcome (List String)
  get_space_efficiency_aliases tp =
      if tp == types.tp_ese
      then returned ("thin" ∷ [])
      else if tp == types.tp_none
      then returned ("none" ∷ "" ∷ [])
      else raised Exception.space_efficiency_not_supported

-- `validate_supported_space_efficiency`
unfoldable pub validate_supported_space_efficiency : Option String → Outcome (Unit {0})
validate_supported_space_efficiency none = returned tt
validate_supported_space_efficiency (some s) =
    if truthy s && not (lower s == "thin" || lower s == "none")
    then raised Exception.space_efficiency_not_supported
    else returned tt

-- What a mediator knows of its array: its address, and the `wwnn` of the system.
module _ (types : Ds8kTypes) (address wwnn : String) where
  -- `_get_source_id`
  unfoldable pub get_source_id : ApiVolume → Option String
  unfolding get_flashcopy_as_target_if_exists generate_volume_scsi_identifier
  get_source_id v = elim (get_flashcopy_as_target_if_exists v) [
    | none ↦ none
    | some f ↦ some (generate_volume_scsi_identifier wwnn f.sourcevolume)
  ]

  abbrev pub volume_of : ApiVolume → Option String → List String → Volume
  volume_of v source aliases = record {
    name = v.name;
    id = some (generate_volume_scsi_identifier wwnn v.id);
    internal_id = some v.id;
    array_type = some "DS8K";
    capacity_bytes = v.cap;
    array_address = address ∷ [];
    source_id = source;
    pool = v.pool;
    space_efficiency_aliases = aliases;
    volume_group_id = none;
    volume_group_name = none;
    partition_name = none;
  }

  -- `_generate_volume_response`
  unfoldable pub generate_volume_response : ApiVolume → Outcome Volume
  unfolding get_source_id get_space_efficiency_aliases generate_volume_scsi_identifier
  generate_volume_response v = elim (get_space_efficiency_aliases types v.tp) [
    | raised e ↦ raised e
    | returned aliases ↦ returned (volume_of v (get_source_id v) aliases)
  ]

  -- `_generate_snapshot_response`, which names no pool
  unfoldable pub generate_snapshot_response : ApiVolume → String → Snapshot
  unfolding generate_volume_scsi_identifier
  generate_snapshot_response v source = record {
    volume = record (volume_of v (some (generate_volume_scsi_identifier wwnn source)) []) {
      pool = "";
    };
    is_ready = true;
  }

  -- `_generate_snapshot_response_with_verification`
  unfoldable pub generate_snapshot_response_with_verification : ApiVolume → Outcome Snapshot
  unfolding get_flashcopy_as_target_if_exists generate_snapshot_response
  generate_snapshot_response_with_verification v = elim (get_flashcopy_as_target_if_exists v) [
    | none ↦ raised Exception.expected_snapshot_but_found_volume
    | some f ↦
        if f.backgroundcopy == "disabled"
        then returned (generate_snapshot_response v f.sourcevolume)
        else raised Exception.expected_snapshot_but_found_volume
  ]

-- `v1[-1]` and `v2[:2]`, or an error where they are too short
abbrev version_of : String → String → Outcome String
version_of (String.◌∷◌ c s) (String.◌∷◌ d (String.◌∷◌ e more)) =
    let major = String.◌∷◌ c s in
    returned (
      join "." (
        str_drop (str_length major - 1) major
        ∷ String.◌∷◌ d String.[]
        ∷ String.◌∷◌ e String.[]
        ∷ []))
version_of _ _ = raised Exception.index_error

-- `parse_version`: `two_digits` prints the number that a text holds with at least two digits.
abbrev parse_parts : (String → Outcome String) → List String → Outcome String
parse_parts two_digits (v1 ∷ v2 ∷ v3 ∷ more) = elim (two_digits v2) [
  | raised e ↦ raised e
  | returned d ↦ version_of v1 d
]
parse_parts two_digits _ = raised Exception.value_error

unfoldable pub parse_version : (String → Outcome String) → String → Outcome String
parse_version two_digits bundle = parse_parts two_digits (split "." bundle)

module _ {S : Type 0} (client : Ds8kClient S) (two_digits : String → Outcome String)
    (is_older : String → String → Bool) where
  -- `_connect`, for a client that is made: the system that answers. `is_older` compares two versions.
  unfoldable pub connect : Exec S SystemInfo
  unfolding parse_version
  connect =
      except_client
        (do
          info ← client.get_system
          version ← lift (parse_version two_digits info.bundle)
          raise_if (is_older version "7.5.1") Exception.unsupported_storage_version
          pure info)
        (λ kind message.
          if has message "BE7A002D" || has message "BE7A0029"
          then raise Exception.credentials_error
          else reraise kind message)
