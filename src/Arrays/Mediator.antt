-- ===== src/Arrays/Mediator.antt =====
-- controllers/array_action/array_mediator_interface.py and array_action_types.py: the storage objects,
-- and what the servers call on a mediator. `S` is the state of the arrays; each method may change it
-- and may raise.
use ibm_block_csi_driver.Prelude.{ℕ, Bool, Option, String, List, Dict}
use ibm_block_csi_driver.Errors.{Exception}
use ibm_block_csi_driver.Exec.{Exec, pure, raise}
use ibm_block_csi_driver.Requests.Ids.{ObjectType, ObjectIds}
use ibm_block_csi_driver.Requests.Nodes.{Initiators}
use ibm_block_csi_driver.Requests.Parameters.{NameLimits}

pub record Volume : Type 0 where
  pub name : String
  pub id : Option String
  pub internal_id : Option String
  pub array_type : Option String
  pub capacity_bytes : ℕ
  pub array_address : List String
  pub source_id : Option String
  pub pool : String
  pub space_efficiency_aliases : List String
  pub volume_group_id : Option String
  pub volume_group_name : Option String
  pub partition_name : Option String

-- A `Snapshot` is a `Volume` that may be ready.
pub record Snapshot : Type 0 where
  pub volume : Volume
  pub open volume use *
  pub is_ready : Bool

pub record VolumeGroup : Type 0 where
  pub name : String
  pub id : Option String
  pub internal_id : Option String
  pub array_type : Option String
  pub volumes : List Volume
  pub partition_name : Option String

-- What a search by id finds.
pub data ArrayObject : Type 0 where
  volume_object : Volume → ArrayObject
  snapshot_object : Snapshot → ArrayObject
  group_object : VolumeGroup → ArrayObject

-- The attributes of a volume. A volume group does not have all of them.
module _ {S : Type 0} where
  unfoldable pub as_volume : ArrayObject → Exec S Volume
  as_volume (volume_object v) = pure v
  as_volume (snapshot_object s) = pure s.volume
  as_volume (group_object g) = raise Exception.attribute_error

pub record Replication : Type 0 where
  pub name : String
  pub copy_type : String
  pub is_ready : Bool
  pub replication_type : String
  -- `None` where the array does not say
  pub is_primary : Option Bool
  pub volume_group_id : Option String

pub record ReplicationRequest : Type 0 where
  pub volume_internal_id : Option String
  pub other_volume_internal_id : Option String
  pub other_system_id : Option String
  pub copy_type : String
  pub replication_type : String
  pub replication_policy : Option String

pub record Host : Type 0 where
  pub name : String
  pub connectivity_types : List String
  pub initiators : Initiators

-- What a host reaches the array by: a list of ports, or the targets with their addresses.
pub data ArrayInitiators : Type 0 where
  ports : List String → ArrayInitiators
  targets : Dict (List String) → ArrayInitiators

pub record ArrayMediator (S : Type 0) : Type 0 where
  pub disconnect : Exec S Unit
  -- name, size, space efficiency, pool, io group, volume group, source ids and type, whether snapshots
  -- are objects, partition, the partition's volume group, raw parameters
  pub create_volume :
      String
      → ℕ
      → Option String
      → String
      → Option String
      → Option String
      → ObjectIds
      → Option ObjectType
      → Bool
      → Option String
      → Option String
      → Dict String
      → Exec S Volume
  -- volume id, source id, the source's capacity, minimum size
  pub copy_to_existing_volume : Option String → String → ℕ → ℕ → Exec S Unit
  pub delete_volume : Option String → Option String → Exec S Unit
  pub get_volume : String → Option String → Bool → Exec S Volume
  pub expand_volume : Option String → ℕ → Option String → Exec S Unit
  pub get_volume_mappings : String → Exec S (Dict String)
  pub map_volume : String → String → Option String → Exec S String
  pub unmap_volume : String → String → Exec S Unit
  pub get_snapshot : Option String → String → Option String → Bool → Exec S (Option Snapshot)
  pub get_object_by_id : Option String → Option ObjectType → Bool → Exec S (Option ArrayObject)
  -- volume id, snapshot name, space efficiency, pool, whether snapshots are objects, partition, the
  -- repository's size in percent
  pub create_snapshot :
      Option String
      → String
      → Option String
      → Option String
      → Bool
      → Option String
      → Option ℕ
      → Exec S Snapshot
  pub delete_snapshot : Option String → Option String → Option String → Exec S Unit
  pub get_iscsi_targets_by_iqn : String → Exec S (Dict (List String))
  pub get_array_fc_wwns : String → Exec S (List String)
  pub get_nvme_target_ports : Exec S (List String)
  pub get_host_by_host_identifiers : Initiators → Exec S (String × List String)
  pub get_host_by_name : String → Exec S Host
  pub validate_supported_space_efficiency : Option String → Exec S Unit
  pub verify_volume_partition : ArrayObject → Option String → Exec S Unit
  pub verify_volume_group_partition : VolumeGroup → Option String → Exec S Unit
  pub register_plugin : String → String → Exec S Unit
  pub get_replication : ReplicationRequest → Exec S (Option Replication)
  pub create_replication : ReplicationRequest → Exec S Unit
  pub delete_replication : Replication → Exec S Unit
  pub promote_replication_volume : Replication → Exec S Unit
  pub demote_replication_volume : Replication → Exec S Unit
  pub get_volume_group : String → Exec S VolumeGroup
  pub create_volume_group : String → Option String → Exec S VolumeGroup
  pub delete_volume_group : String → Exec S Unit
  pub add_volume_to_volume_group : String → Option String → Option String → Exec S Unit
  pub remove_volume_from_volume_group : Option String → Option String → Option String → Exec S Unit
  pub name_limits : NameLimits
  pub minimal_volume_size_in_bytes : ℕ
  pub maximal_volume_size_in_bytes : ℕ
  pub max_lun_retries : ℕ
