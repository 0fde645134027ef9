-- ===== src/HostDefiner.antt =====
-- controllers/servers/host_definer: storage_manager, the service that defines the nodes of the cluster as
-- hosts of the arrays, and two of the watchers of the cluster. Its mediators are the arrays' of controllers/array_action, by the operations that
-- the service calls.
pub mod Ports
pub mod Difference
pub mod Definition
pub mod Outcomes
pub mod Secrets
pub mod Watcher
pub mod Pending
pub mod Backoff
pub mod Matching
pub mod Counts
use ibm_block_csi_driver.Prelude.{ℕ, Bool, Option, String, List}
use ibm_block_csi_driver.Errors.{Exception}
use ibm_block_csi_driver.Exec.{Exec}
use ibm_block_csi_driver.Requests.Secrets.{ArrayConnectionInfo}
use ibm_block_csi_driver.Requests.Nodes.{Initiators}
use ibm_block_csi_driver.Arrays.Mediator.{Host}

-- `DefineHostRequest`
pub record DefineHostRequest : Type 0 where
  pub prefix : String
  pub connectivity_type_from_user : String
  pub node_id_from_host_definition : String
  pub node_initiators_from_host_definition : String
  pub node_id_from_csi_node : String
  pub node_initiators_from_csi_node : String
  pub array_connection_info : ArrayConnectionInfo
  pub io_group : String

-- What the service calls on a mediator
pub record HostMediator (S : Type 0) : Type 0 where
  pub get_host_by_host_identifiers : Initiators → Exec S (String × List String)
  pub get_host_by_name : String → Exec S Host
  pub verify_host_partition : String → Option String → Exec S Bool
  pub get_host_connectivity_type : String → Exec S (Option String)
  pub get_host_connectivity_ports : String → Option String → Exec S (List String)
  pub get_host_io_group : String → Exec S (Option (List String))
  -- name, initiators, connectivity type, io group, partition, port set
  pub create_host :
      String → Initiators → Option String → String → Option String → Option String → Exec S Unit
  pub delete_host : String → Exec S Unit
  pub add_ports_to_host : String → Initiators → Option String → Exec S Unit
  pub remove_ports_from_host : String → List String → Option String → Exec S Unit
  pub change_host_protocol : String → String → Exec S Unit
  pub add_io_group_to_host : String → String → Exec S Unit
  pub remove_io_group_from_host : String → String → Exec S Unit

-- `detect_array_type`, and `get_agent(…).get_mediator()`: the mediator and what gives it back
pub record HostArrays (S : Type 0) : Type 0 where
  pub detect_array_type : List String → Exec S String
  pub get_mediator : ArrayConnectionInfo → String → Exec S (HostMediator S × Exec S (Unit {0}))
