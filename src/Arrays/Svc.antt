-- ===== src/Arrays/Svc.antt =====
-- controllers/array_action/array_mediator_svc.py: the mediator of the Storage Virtualize arrays. The
-- client of the package pysvc, which sends the commands, is a parameter: a record of its commands, over
-- a state of the array. An answer's numbers are read as numbers, without `int` and `str`.
pub mod Kwargs
pub mod Volumes
pub mod Sizes
pub mod Copies
pub mod Deletion
pub mod Hosts
pub mod HostQueries
pub mod HostCommands
pub mod HostSearch
pub mod Scan
pub mod VolumeGroups
pub mod Grouping
pub mod VolumeSnapshots
pub mod Clones
pub mod Creation
pub mod Rollback
pub mod Objects
pub mod Luns
pub mod Relationships
pub mod Promotion
use ibm_block_csi_driver.Prelude.{
  ℕ, Bool, true, false, not, ◌&&◌, ◌||◌, Option, none, some, String, List, [], ◌∷◌, Dict, any,
  finds, split, lstrip, is_space, truthy, join, Char, same_char, ◌==◌, if◌then◌else◌, length,
  nat_eq,
}
use ibm_block_csi_driver.Errors.{Exception}
use ibm_block_csi_driver.Outcome.{Outcome, returned, raised}
use ibm_block_csi_driver.Exec.{Exec, pure, raise, raise_if, lift, try_except, ◌>>=◌, ◌>>◌}
use ibm_block_csi_driver.Arrays.Nguid.{convert_scsi_id_to_nguid}

-- The values of a command's keyword arguments
pub data CliValue : Type 0 where
  text : String → CliValue
  number : ℕ → CliValue
  flag : Bool → CliValue

abbrev pub CliKwargs : Type 0
CliKwargs = Dict CliValue

-- `mdisk_grp_name`: one pool, or a list of pools
pub data CliPools : Type 0 where
  one_pool : String → CliPools
  many_pools : List String → CliPools

-- What a command answers for a volume, a FlashCopy mapping and a remote copy relationship. A field that
-- the answer may lack is an `Option`; one that is empty is the empty text.
pub record CliVolume : Type 0 where
  pub name : String
  pub id : String
  pub vdisk_uid : String
  pub capacity : ℕ
  pub mdisk_grp_name : CliPools
  pub se_copy : String
  pub compressed_copy : String
  pub deduplicated_copy : Option String
  pub fc_id : String
  pub io_group_name : String
  pub volume_group_id : String
  pub volume_group_name : String
  pub source_volume_name : String
  pub replication_mode : String
  pub fc_map_count : String

pub record Fcmap : Type 0 where
  pub id : String
  pub source_vdisk_name : String
  pub status : String
  pub copy_rate : String
  pub rc_controlled : String

pub record Rcrelationship : Type 0 where
  pub id : String
  pub name : String
  pub state : String
  pub primary : String
  pub copy_type : String
  pub master_cluster_id : String
  pub aux_vdisk_name : String

pub record CliSnapshot : Type 0 where
  pub snapshot_id : String
  pub snapshot_name : String
  pub volume_name : String

pub record CliPool : Type 0 where
  pub site_name : String

pub record CliVolumeGroup : Type 0 where
  pub id : String
  pub uid : Option String
  pub name : String
  pub partition_name : Option String
  pub volume_count : ℕ

-- A host's ports of each kind: none where the answer has no such attribute; one port is a list of one.
pub record CliHost : Type 0 where
  pub name : String
  pub nqn : Option (List String)
  pub wwpn : Option (List String)
  pub iscsi_name : Option (List String)
  pub port_count : ℕ
  pub partition_name : Option String

-- `SVCResponse`: its views are computed when they are read, and may raise.
pub record SvcResponse (A : Type 0) : Type 0 where
  pub as_single_element : Outcome (Option A)
  pub as_list : Outcome (List A)

-- The client: the commands that answer, and `svctask`, by the command's name. A refused command raises
-- an error that carries a message. `addsnapshot` and `mkrcrelationship` give the id that the answer's
-- message names; `lspartition` the replication policy of a partition, the empty text for none, and
-- `lsreplicationpolicy` the topology of a policy. `lsfabric`, `lsnvmefabric` and `lshostiplogin` give
-- names of hosts, and `detailed_hosts` is the batch of `lshost` commands that asks for every host.
-- `register_plugin` is the mediator's method of this name, which `register_csi_plugin` calls before the
-- methods that it decorates, with the key of the kind of method: call-home, which may send a command.
pub record SvcClient (S : Type 0) : Type 0 where
  pub register_plugin : String → Exec S (Unit {0})
  pub svctask : String → CliKwargs → Exec S (Unit {0})
  pub supports : String → Bool
  pub addsnapshot : CliKwargs → Exec S String
  pub mkrcrelationship : CliKwargs → Exec S (Option String)
  pub lsvdisk : CliKwargs → Exec S (SvcResponse CliVolume)
  pub lsfcmap : String → Exec S (SvcResponse Fcmap)
  pub lsrcrelationship : String → Exec S (SvcResponse Rcrelationship)
  pub lsmdiskgrp : String → Exec S (SvcResponse CliPool)
  pub lspartition : CliKwargs → Exec S (SvcResponse String)
  pub lsreplicationpolicy : CliKwargs → Exec S (SvcResponse String)
  pub lsvolumesnapshot : CliKwargs → Exec S (SvcResponse CliSnapshot)
  pub lsvolumegroup : CliKwargs → Exec S (SvcResponse CliVolumeGroup)
  pub lshost : String → Exec S (SvcResponse CliHost)
  pub detailed_hosts : Exec S (List CliHost)
  pub lsfabric : CliKwargs → Exec S (SvcResponse String)
  pub lsnvmefabric : CliKwargs → Exec S (SvcResponse String)
  pub lshostiplogin : CliKwargs → Exec S (SvcResponse String)
  pub lshostiogrp : String → Exec S (SvcResponse String)
  pub lshostvdiskmap : String → Exec S (List String)
  pub lsvdiskhostmap : String → Exec S (Dict String)
  pub identifier : Exec S String

-- `ID in message`
abbrev pub has : String → String → Bool
has message code = finds code message

abbrev pub has_any : String → List String → Bool
has_any message codes = any (has message) codes

-- `message.split()[0]`, of a text with no space before it
unfoldable pub take_word : String → String
take_word String.[] = ""
take_word (String.◌∷◌ c s) =
    let rest = String.◌∷◌ c (take_word s) in if is_space c then "" else rest

unfoldable pub ends_with : Char → String → Bool
ends_with d String.[] = false
ends_with d (String.◌∷◌ c String.[]) = same_char c d
ends_with d (String.◌∷◌ c (String.◌∷◌ e s)) = ends_with d (String.◌∷◌ e s)

abbrev tag_is_warning : String → Outcome Bool
tag_is_warning tag =
    if truthy tag then returned (ends_with "W" tag) else raised Exception.index_error

abbrev quoted_part : List String → Outcome String
quoted_part (p ∷ q ∷ ps) = returned q
quoted_part _ = raised Exception.index_error

-- `is_warning_message`: by the last letter of the first word between quotes
unfoldable pub is_warning_message : String → Outcome Bool
unfolding take_word ends_with
is_warning_message message = elim (quoted_part (split "\"" message)) [
  | raised e ↦ raised e
  | returned part ↦ tag_is_warning (take_word (lstrip part))
]

module _ {S A : Type 0} where
  -- `except (svc_errors.CommandExecutionError, CLIFailureError) as ex:`, for `ex.my_message`
  abbrev handle_cli : (String → Exec S A) → Exception → Exec S A
  handle_cli handler (Exception.cli_error message) = handler message
  handle_cli handler e = raise e

  abbrev pub except_cli : Exec S A → (String → Exec S A) → Exec S A
  except_cli m handler = try_except m (handle_cli handler)

  -- `if is_warning_message(ex.my_message): …  else: …`
  abbrev pub unless_warning : A → (String → Exec S A) → String → Exec S A
  unless_warning a handler message = elim (is_warning_message message) [
    | raised e ↦ raise e
    | returned true ↦ pure a
    | returned false ↦ handler message
  ]

-- `raise ex`
abbrev pub reraise : {S A : Type 0} → String → Exec S A
reraise message = raise (Exception.cli_error message)

module _ {S : Type 0} (client : SvcClient S) where
  lsvdisk_error : String → Exec S (Option (SvcResponse CliVolume))
  lsvdisk_error message =
      if has_any message ("CMMVC5753E" ∷ "CMMVC5754E" ∷ [])
      then pure none
      else if has_any message ("CMMVC6017E" ∷ "CMMVC5703E" ∷ "CMMVC5741E" ∷ [])
      then raise Exception.invalid_argument
      else reraise message

  -- `_lsvdisk`: none where the array knows no such volume
  unfoldable pub lsvdisk : CliKwargs → Exec S (Option (SvcResponse CliVolume))
  unfolding lsvdisk_error
  lsvdisk kwargs =
      except_cli (client.lsvdisk (("bytes", flag true) ∷ kwargs) >>= λ r. pure (some r))
        lsvdisk_error

  -- `_lsvdisk_single_element`
  unfoldable pub lsvdisk_single_element : CliKwargs → Exec S (Option CliVolume)
  unfolding lsvdisk
  lsvdisk_single_element kwargs =
      lsvdisk kwargs >>= λ r. elim r [ none ↦ pure none | some a ↦ lift a.as_single_element ]

  -- `_get_cli_volume_if_exists`
  unfoldable pub get_cli_volume_if_exists : String → Exec S (Option CliVolume)
  unfolding lsvdisk_single_element
  get_cli_volume_if_exists name = lsvdisk_single_element (("object_id", text name) ∷ [])

  abbrev pub found : Option CliVolume → Exec S CliVolume
  found none = raise Exception.object_not_found
  found (some v) = pure v

  -- `_get_cli_volume`
  unfoldable pub get_cli_volume : String → Exec S CliVolume
  unfolding get_cli_volume_if_exists
  get_cli_volume name = get_cli_volume_if_exists name >>= found

  unfoldable pub lsvdisk_by_uid : String → Exec S (Option CliVolume)
  unfolding lsvdisk_single_element
  lsvdisk_by_uid uid =
      lsvdisk_single_element (("filtervalue", text (join "" ("vdisk_UID=" ∷ uid ∷ []))) ∷ [])

  -- `_get_cli_volume_by_wwn`, with and without its `not_exist_err`
  unfoldable pub get_cli_volume_by_wwn_if_exists : String → Exec S (Option CliVolume)
  unfolding lsvdisk_by_uid
  get_cli_volume_by_wwn_if_exists volume_id = lsvdisk_by_uid volume_id >>= λ v. elim v [
    | none ↦ lsvdisk_by_uid (convert_scsi_id_to_nguid volume_id)
    | some w ↦ pure (some w)
  ]

  unfoldable pub get_cli_volume_by_wwn : String → Exec S CliVolume
  unfolding get_cli_volume_by_wwn_if_exists
  get_cli_volume_by_wwn volume_id = get_cli_volume_by_wwn_if_exists volume_id >>= found

  -- `_get_wwn_by_volume_name_if_exists` and `_get_volume_name_by_wwn`
  unfoldable pub get_wwn_by_volume_name_if_exists : String → Exec S (Option String)
  unfolding get_cli_volume_if_exists
  get_wwn_by_volume_name_if_exists name = get_cli_volume_if_exists name >>= λ v. elim v [
    | none ↦ pure none
    | some w ↦ pure (some w.vdisk_uid)
  ]

  unfoldable pub get_volume_name_by_wwn : String → Exec S String
  unfolding get_cli_volume_by_wwn
  get_volume_name_by_wwn volume_id = do
    v ← get_cli_volume_by_wwn volume_id
    raise_if (not (truthy v.name)) Exception.object_not_found
    pure v.name

  -- `_get_fcmaps`, for 'source' or 'target'
  unfoldable pub get_fcmaps : String → String → Exec S (List Fcmap)
  get_fcmaps name endpoint_type = do
    r ← client.lsfcmap (join "" (endpoint_type ∷ "_vdisk_name=" ∷ name ∷ []))
    lift r.as_list

  abbrev only : List Fcmap → Option Fcmap
  only (f ∷ []) = some f
  only _ = none

  unfoldable pub get_fcmap_as_target_if_exists : String → Exec S (Option Fcmap)
  unfolding get_fcmaps
  get_fcmap_as_target_if_exists name = get_fcmaps name "target" >>= λ fs. pure (only fs)

  unfoldable pub get_fcmaps_as_source_if_exist : String → Exec S (List Fcmap)
  unfolding get_fcmaps
  get_fcmaps_as_source_if_exist name = get_fcmaps name "source"

-- `_is_in_remote_copy_relationship`
abbrev pub is_in_remote_copy_relationship : Fcmap → Bool
is_in_remote_copy_relationship f = f.rc_controlled == "yes"
