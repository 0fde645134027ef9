-- ===== src/Requests/Messages.antt =====
-- The gRPC requests, as far as the servers read them. A message field that the code tests for truth is
-- an `Option`; a `oneof` is a data type with a constructor for "not set".
use ibm_block_csi_driver.Prelude.{Bool, Option, String, List, Dict, ℤ}

pub data AccessMode : Type 0 where
  unknown single_node_writer single_node_reader_only multi_node_reader_only : AccessMode
  multi_node_single_writer multi_node_multi_writer : AccessMode

pub data AccessType : Type 0 where
  mount : String → List String → AccessType
  block : AccessType
  no_access_type : AccessType

pub record VolumeCapability : Type 0 where
  pub access_type : AccessType
  pub access_mode : AccessMode

pub data ContentSource : Type 0 where
  from_snapshot from_volume : String → ContentSource
  no_source_type : ContentSource

pub record CreateVolumeRequest : Type 0 where
  pub name : String
  -- `capacity_range.required_bytes`
  pub capacity_range : Option ℤ
  pub volume_capabilities : List VolumeCapability
  pub parameters : Dict String
  pub secrets : Dict String
  pub volume_content_source : Option ContentSource
  -- the segments of `accessibility_requirements.preferred`
  pub preferred_topologies : Option (List (Dict String))

pub record VolumeIdRequest : Type 0 where
  pub volume_id : String
  pub secrets : Dict String

pub record PublishVolumeRequest : Type 0 where
  pub volume_id : String
  pub node_id : String
  pub volume_capability : VolumeCapability
  pub readonly : Bool
  pub secrets : Dict String

pub record UnpublishVolumeRequest : Type 0 where
  pub volume_id : String
  pub node_id : String
  pub secrets : Dict String

pub record ValidateCapabilitiesRequest : Type 0 where
  pub volume_id : String
  pub volume_context : Dict String
  pub volume_capabilities : List VolumeCapability
  pub parameters : Dict String
  pub secrets : Dict String

pub record CreateSnapshotRequest : Type 0 where
  pub name : String
  pub source_volume_id : String
  pub parameters : Dict String
  pub secrets : Dict String

pub record DeleteSnapshotRequest : Type 0 where
  pub snapshot_id : String
  pub secrets : Dict String

pub record ExpandVolumeRequest : Type 0 where
  pub volume_id : String
  pub capacity_range : Option ℤ
  pub secrets : Dict String

pub record CreateVolumeGroupRequest : Type 0 where
  pub name : String
  pub parameters : Dict String
  pub secrets : Dict String

pub record DeleteVolumeGroupRequest : Type 0 where
  pub volume_group_id : String
  pub secrets : Dict String

pub record ModifyVolumeGroupRequest : Type 0 where
  pub volume_group_id : String
  pub volume_ids : List String
  pub secrets : Dict String

-- The `replication_source` of a request of the CSI addons; `no_fields` has an empty `ListFields()`.
pub data ReplicationSource : Type 0 where
  no_fields : ReplicationSource
  of_volume_group of_volume : String → ReplicationSource
  of_other_type : ReplicationSource

-- The five requests of the replication service, which have the same fields.
pub record AddonsRequest : Type 0 where
  pub volume_id : String
  pub replication_id : String
  pub replication_source : Option ReplicationSource
  pub parameters : Dict String
  pub secrets : Dict String
