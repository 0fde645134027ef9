-- ===== src/HostDefiner/Watcher.antt =====
-- controllers/servers/host_definer/watcher/watcher_helper.py: when a node is defined on a secret's array, and what
-- becomes of its HostDefinition. What kubernetes_manager asks the API of Kubernetes for, the making of a
-- request out of the labels of a node and its secret, and the service are a record of operations; `os.getenv`
-- gives the two settings.
use ibm_block_csi_driver.Prelude.{
  ℕ, pos, Bool, true, false, not, ◌&&◌, Option, none, some, String, List, [], ◌∷◌, Dict, lookup,
  ◌==◌, if◌then◌else◌,
}
use ibm_block_csi_driver.Exec.{Exec, pure, when, ◌>>=◌, ◌>>◌}
use ibm_block_csi_driver.HostDefiner.{DefineHostRequest}
use ibm_block_csi_driver.HostDefiner.Definition.{
  DefineHostResponse, Failure, empty_response, failed,
}
use ibm_block_csi_driver.HostDefiner.Secrets.{
  SecretInfo, get_matching_managed_secret_info, is_node_should_managed_on_secret_info,
}

-- `HostDefinitionInfo`, by the fields that are read
pub record HostDefinitionInfo : Type 0 where
  pub name : String
  pub secret_name : String
  pub secret_namespace : String
  pub node_name : String
  pub node_id : String
  pub node_initiators : String
  pub phase : String
  pub connectivity_type : String

abbrev pub pending_creation_phase : String
pending_creation_phase = "PendingCreation"

abbrev pub pending_deletion_phase : String
pending_deletion_phase = "PendingDeletion"

abbrev pub error_phase : String
error_phase = "Error"

abbrev pub ready_phase : String
ready_phase = "Ready"

-- An event has the failure that it tells of, or none for success, and its action.
pub record Cluster (S : Type 0) : Type 0 where
  pub get_k8s_host_definitions : Exec S (List HostDefinitionInfo)
  pub patch_host_definition : String → DefineHostResponse → Exec S (Unit {0})
  pub delete_host_definition : String → Exec S (Unit {0})
  pub set_host_definition_status : String → String → Exec S (Unit {0})
  pub create_k8s_event : HostDefinitionInfo → Option Failure → String → Exec S (Unit {0})
  pub get_node_labels : String → Exec S (Dict String)
  pub get_csi_node_id : String → Exec S String
  pub update_manage_node_label : String → Option String → Exec S (Unit {0})
  -- `_get_secret_data` and `_validate_secret`, which logs what is wrong
  pub check_secret : String → String → Exec S (Unit {0})
  pub managed_secrets : Exec S (List SecretInfo)
  pub get_request_from_host_definition : HostDefinitionInfo → Exec S (Option DefineHostRequest)
  pub define_host : DefineHostRequest → Exec S DefineHostResponse
  pub undefine_host : DefineHostRequest → Exec S DefineHostResponse
  pub sleep : ℕ → Exec S (Unit {0})

-- `_is_host_definition_matches`
unfoldable pub is_host_definition_matches : HostDefinitionInfo → String → String → String → Bool
is_host_definition_matches d node_name secret_name secret_namespace =
    d.node_name == node_name
    && (d.secret_name == secret_name)
    && (d.secret_namespace == secret_namespace)

unfoldable pub first_matching :
    HostDefinitionInfo → List HostDefinitionInfo → Option HostDefinitionInfo
unfolding is_host_definition_matches
first_matching info [] = none
first_matching info (d ∷ ds) =
    if is_host_definition_matches d info.node_name info.secret_name info.secret_namespace
    then some d
    else first_matching info ds

-- `_is_node_has_host_definitions`, negated
unfoldable pub none_of : String → List HostDefinitionInfo → Bool
none_of node [] = true
none_of node (d ∷ ds) = not (d.node_name == node) && none_of node ds

abbrev is_true : Option String → Bool
is_true none = false
is_true (some s) = s == "true"

module _ {S : Type 0} (cluster : Cluster S)
    (dynamic_node_labeling allow_delete : Option String) where
  -- `_get_matching_host_definition_info`, of the node and the secret of a definition
  unfoldable pub get_matching_host_definition_info :
      HostDefinitionInfo → Exec S (Option HostDefinitionInfo)
  unfolding first_matching
  get_matching_host_definition_info info =
      cluster.get_k8s_host_definitions >>= λ ds. pure (first_matching info ds)

  -- `_is_host_has_label_in_true`
  unfoldable pub is_host_has_label_in_true : String → String → Exec S Bool
  is_host_has_label_in_true node label =
      cluster.get_node_labels node >>= λ labels. pure (is_true (lookup label labels))

  abbrev pub and_then : Exec S Bool → Bool → Exec S Bool
  and_then m true = m
  and_then m false = pure false

  abbrev pub is_deletion_allowed : String → Exec S Bool
  unfolding is_host_has_label_in_true
  is_deletion_allowed node =
      is_host_has_label_in_true node
        "hostdefiner.santricity.block.csi.ibm.com/do-not-delete-definition"
      >>= λ forbidden. pure (not forbidden)

  abbrev pub is_managed_node : String → Exec S Bool
  unfolding is_host_has_label_in_true
  is_managed_node node =
      is_host_has_label_in_true node "hostdefiner.santricity.block.csi.ibm.com/manage-node"

  -- `_is_host_can_be_undefined`
  unfoldable pub is_host_can_be_undefined : String → Exec S Bool
  is_host_can_be_undefined node =
      and_then (is_managed_node node >>= and_then (is_deletion_allowed node)) (is_true allow_delete)

  abbrev this_or : SecretInfo → Option SecretInfo → SecretInfo
  this_or s none = s
  this_or s (some t) = t

  -- `_is_node_should_be_managed_on_secret`: a secret that is not managed stands for itself, with no nodes.
  unfoldable pub is_node_should_be_managed_on_secret : String → String → String → Exec S Bool
  unfolding get_matching_managed_secret_info is_node_should_managed_on_secret_info
  is_node_should_be_managed_on_secret node secret_name secret_namespace = do
    cluster.check_secret secret_name secret_namespace
    secrets ← cluster.managed_secrets
    let s : SecretInfo = record {
      name = secret_name;
      namespace = secret_namespace;
      nodes_with_system_id = [];
      system_ids_topologies = [];
      managed_storage_classes = pos 0;
    }
    pure (
        is_node_should_managed_on_secret_info node
          (this_or s (get_matching_managed_secret_info s secrets)))

  requested :
      (DefineHostRequest → Exec S DefineHostResponse)
      → Option DefineHostRequest
      → Exec S DefineHostResponse
  requested f none = pure (failed Failure.failed_to_get_secret)
  requested f (some r) = f r

  -- `_ensure_definition_state`
  unfoldable pub ensure_definition_state :
      HostDefinitionInfo
      → (DefineHostRequest → Exec S DefineHostResponse)
      → Exec S DefineHostResponse
  unfolding requested
  ensure_definition_state info define_function =
      cluster.get_request_from_host_definition info >>= requested define_function

  -- `_set_host_definition_status_to_ready`
  unfoldable pub set_host_definition_status_to_ready : HostDefinitionInfo → Exec S (Unit {0})
  set_host_definition_status_to_ready info =
      cluster.set_host_definition_status info.name ready_phase
      >> cluster.create_k8s_event info none "Define"

  has_no_driver : String → Exec S Bool
  has_no_driver node = cluster.get_csi_node_id node >>= λ id. pure (id == "")

  has_no_definitions : String → Exec S Bool
  unfolding none_of
  has_no_definitions node = cluster.get_k8s_host_definitions >>= λ ds. pure (none_of node ds)

  -- `_remove_manage_node_label`
  unfoldable pub remove_manage_node_label : String → Exec S (Unit {0})
  unfolding has_no_driver has_no_definitions
  remove_manage_node_label node =
      and_then (has_no_driver node >>= and_then (has_no_definitions node))
        (is_true dynamic_node_labeling)
      >>= λ removed. when removed (cluster.update_manage_node_label node none)

  after_undefine : DefineHostResponse → Option HostDefinitionInfo → Exec S (Unit {0})
  after_undefine response none = pure tt
  after_undefine response (some d) = elim response.failure [
    | none ↦ cluster.delete_host_definition d.name
    | some f ↦
        cluster.set_host_definition_status d.name pending_deletion_phase
        >> cluster.create_k8s_event d (some f) "Undefine"
  ]

  -- `_delete_definition`
  unfoldable pub delete_definition : HostDefinitionInfo → Exec S (Unit {0})
  unfolding is_node_should_be_managed_on_secret ensure_definition_state
      get_matching_host_definition_info after_undefine
  delete_definition info = do
    managed ←
        is_node_should_be_managed_on_secret info.node_name info.secret_name info.secret_namespace
    response ←
        if managed then ensure_definition_state info cluster.undefine_host else pure empty_response
    current ← get_matching_host_definition_info info
    after_undefine response current
