-- ===== src/Arrays/Xiv.antt =====
-- controllers/array_action/array_mediator_xiv.py: the mediator of the XIV arrays. The client of the package
-- pyxcli, which sends the commands, is a parameter: a record of its commands over a state of the array.
-- Numbers in answers are read as numbers, and lists of answers are lists.
pub mod Volumes
pub mod Hosts
pub mod Luns
pub mod Kinds
pub mod Search
use ibm_block_csi_driver.Prelude.{
  ℕ, ◌*◌, ◌/◌, Bool, true, false, Option, none, some, String, List, [], ◌∷◌, truthy, finds, ◌==◌,
  if◌then◌else◌,
}
use ibm_block_csi_driver.Errors.{Exception, XcliError}
use ibm_block_csi_driver.Outcome.{Outcome, returned, raised}
use ibm_block_csi_driver.Exec.{Exec, pure, raise, try_except, ◌>>=◌}
use ibm_block_csi_driver.Arrays.Mediator.{Volume, Snapshot}

-- `copy_master_wwn` is none on arrays of the third generation; `master_name` is empty but for a snapshot.
pub record CliObject : Type 0 where
  pub name : String
  pub id : String
  pub wwn : String
  pub capacity : ℕ
  pub pool_name : String
  pub master_name : String
  pub copy_master_wwn : Option String

pub record CliHost : Type 0 where
  pub name : String
  pub fc_ports : String
  pub iscsi_ports : String

pub record IpInterface : Type 0 where
  pub type : String
  pub address : String
  pub address6 : String

pub record FcPort : Type 0 where
  pub wwpn : String
  pub port_state : String
  pub role : String

-- `is_command_failed` tells which of pyxcli's classes derive from CommandFailedRuntimeError.
pub record XcliClient (S : Type 0) : Type 0 where
  pub is_command_failed : XcliError → Bool
  pub vol_list : String → String → Exec S (Option CliObject)
  pub vol_resize : String → ℕ → Exec S (Unit {0})
  pub vol_create : String → ℕ → String → Exec S CliObject
  pub vol_format : String → Exec S (Unit {0})
  pub vol_copy : String → String → Exec S (Unit {0})
  pub vol_delete : String → Exec S (Unit {0})
  pub snapshot_list : String → Exec S (List CliObject)
  pub snapshot_create : String → String → Exec S CliObject
  pub snapshot_delete : String → Exec S (Unit {0})
  pub host_list : Exec S (List CliHost)
  pub host_list_of : String → Exec S (Option CliHost)
  pub vol_mapping_list : String → Exec S (List (String × String))
  pub mapping_list : String → Exec S (List ℕ)
  pub map_vol : String → String → ℕ → Exec S (Unit {0})
  pub unmap_vol : String → String → Exec S (Unit {0})
  pub ipinterface_list : Exec S (List IpInterface)
  pub config_get : Exec S (List (String × String))
  pub fc_port_list : Exec S (List FcPort)

module _ {S A : Type 0} where
  -- `except` clauses for pyxcli's errors, by class and `status`
  abbrev on_xcli : (XcliError → String → Exec S A) → Exception → Exec S A
  on_xcli handler (Exception.xcli_error kind status) = handler kind status
  on_xcli handler e = raise e

  abbrev pub except_xcli : Exec S A → (XcliError → String → Exec S A) → Exec S A
  except_xcli m handler = try_except m (on_xcli handler)

abbrev pub reraise : {S A : Type 0} → XcliError → String → Exec S A
reraise kind status = raise (Exception.xcli_error kind status)

-- `_convert_size_blocks_to_bytes` and `_convert_size_bytes_to_blocks`. The division is one of floats,
-- which is exact up to the greatest size of a volume.
unfoldable pub convert_size_blocks_to_bytes : ℕ → ℕ
convert_size_blocks_to_bytes size = size * 512

unfoldable pub convert_size_bytes_to_blocks : ℕ → ℕ
convert_size_bytes_to_blocks size = size / 512

-- `validate_supported_space_efficiency`
unfoldable pub validate_supported_space_efficiency : Option String → Outcome (Unit {0})
validate_supported_space_efficiency none = returned tt
validate_supported_space_efficiency (some s) =
    if truthy s then raised Exception.space_efficiency_not_supported else returned tt

-- `_get_volume_source_wwn`
unfoldable pub get_volume_source_wwn : CliObject → Option String
get_volume_source_wwn v = elim v.copy_master_wwn [
  | none ↦ none
  | some wwn ↦ if wwn == "Not Available" then none else some wwn
]

module _ (endpoint : List String) where
  abbrev volume_of : CliObject → Option String → String → Volume
  volume_of v source pool = record {
    name = v.name;
    id = some v.wwn;
    internal_id = some v.id;
    array_type = some "A9000";
    capacity_bytes = convert_size_blocks_to_bytes v.capacity;
    array_address = endpoint;
    source_id = source;
    pool = pool;
    space_efficiency_aliases = [];
    volume_group_id = none;
    volume_group_name = none;
    partition_name = none;
  }

  -- `_generate_volume_response`
  unfoldable pub generate_volume_response : CliObject → Volume
  unfolding convert_size_blocks_to_bytes get_volume_source_wwn
  generate_volume_response v = volume_of v (get_volume_source_wwn v) v.pool_name

  abbrev pub snapshot_of : CliObject → Option String → Snapshot
  unfolding convert_size_blocks_to_bytes
  snapshot_of v source = record { volume = volume_of v source ""; is_ready = true }
