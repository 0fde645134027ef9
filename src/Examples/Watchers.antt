-- ===== src/Examples/Watchers.antt =====
-- A cluster with one HostDefinition, whose service fails a number of times before it succeeds; and the
-- secrets of two storage classes.
use ibm_block_csi_driver.Prelude.{
  ℕ, zero, suc, pos, ◌≡◌, refl, false, none, some, String, List, [], ◌∷◌,
}
use ibm_block_csi_driver.Errors.{Exception}
use ibm_block_csi_driver.Outcome.{returned}
use ibm_block_csi_driver.Exec.{Exec, pure}
use ibm_block_csi_driver.HostDefiner.{DefineHostRequest}
use ibm_block_csi_driver.HostDefiner.Definition.{
  DefineHostResponse, Failure, empty_response, failed,
}
use ibm_block_csi_driver.HostDefiner.Secrets.{
  SecretInfo, handle_added_watch_event, handle_deleted_watch_event,
}
use ibm_block_csi_driver.HostDefiner.Watcher.{
  HostDefinitionInfo, Cluster, first_matching, is_node_should_be_managed_on_secret,
}
use ibm_block_csi_driver.HostDefiner.Pending.{
  is_host_definition_not_pending, try_again, set_host_definition_phase_to_error,
  define_host_using_exponential_backoff,
}
use ibm_block_csi_driver.HostDefiner.Backoff.{
  Passes, Ends, define_host_using_exponential_backoff-Ends, fifth_pass,
  define_host_using_exponential_backoff-creates,
}
use ibm_block_csi_driver.HostDefiner.Matching.{count}
use ibm_block_csi_driver.HostDefiner.Counts.{handle_deleted_watch_event-handle_added_watch_event}
use ibm_block_csi_driver.Examples.Fixture.{connection}

record ClusterState : Type 0 where
  phase : String
  failures : ℕ

abbrev definition : String → HostDefinitionInfo
definition phase = record {
  name = "d";
  secret_name = "s";
  secret_namespace = "ns";
  node_name = "n";
  node_id = "n";
  node_initiators = "";
  phase = phase;
  connectivity_type = "fc";
}

abbrev request : DefineHostRequest
request = record {
  prefix = "";
  connectivity_type_from_user = "fc";
  node_id_from_host_definition = "";
  node_initiators_from_host_definition = "";
  node_id_from_csi_node = "n";
  node_initiators_from_csi_node = "";
  array_connection_info = connection;
  io_group = "";
}

abbrev secret : String → SecretInfo
secret name = record {
  name = name;
  namespace = "ns";
  nodes_with_system_id = [];
  system_ids_topologies = [];
  managed_storage_classes = pos 1;
}

abbrev serve : Exec ClusterState DefineHostResponse
serve s = elim s.failures [
  | zero ↦ (returned empty_response, s)
  | suc n ↦ (returned (failed (Failure.error Exception.host_not_found)), record s { failures = n })
]

abbrev cluster : Cluster ClusterState
cluster = record {
  get_k8s_host_definitions = λ s. (returned (definition s.phase ∷ []), s);
  patch_host_definition = λ name response. pure tt;
  delete_host_definition = λ name s. (returned tt, record s { phase = "" });
  set_host_definition_status = λ name phase s. (returned tt, record s { phase = phase });
  create_k8s_event = λ d failure action. pure tt;
  get_node_labels = λ node. pure [];
  get_csi_node_id = λ node. pure "n";
  update_manage_node_label = λ node label. pure tt;
  check_secret = λ name namespace. pure tt;
  managed_secrets = pure (secret "s" ∷ []);
  get_request_from_host_definition = λ d. pure (some request);
  define_host = λ r. serve;
  undefine_host = λ r. serve;
  sleep = λ seconds. pure tt;
}

abbrev pending : ℕ → ClusterState
pending n = record { phase = "PendingCreation"; failures = n }

abbrev ready : ClusterState
ready = record { phase = "Ready"; failures = 0 }

abbrev four_passes :
    Passes cluster none none (definition "PendingCreation") 5 3 (pending 4) 1 243 (pending 0)
unfolding is_host_definition_not_pending try_again first_matching
four_passes =
    Passes.one_more
      (Passes.one_more
        (Passes.one_more
          (Passes.one_more Passes.no_pass false (pending 4) (pending 3) refl refl refl) false
          (pending 3) (pending 2) refl refl refl)
        false (pending 2) (pending 1) refl refl refl)
      false (pending 1) (pending 0) refl refl refl

-- The service succeeds at the fifth try.
fifth_pass_example :
    define_host_using_exponential_backoff cluster none none
      (definition "PendingCreation")
      (pending 4)
    ≡ (returned tt, record { phase = "Error"; failures = 0 })
unfolding is_host_definition_not_pending try_again first_matching set_host_definition_phase_to_error
fifth_pass_example =
    fifth_pass cluster none none (definition "PendingCreation") (pending 4) (pending 0) (pending 0)
      (record { phase = "Ready"; failures = 0 }) 243 false four_passes refl refl refl

define_host_using_exponential_backoff-creates_example :
    define_host_using_exponential_backoff cluster none none
      (definition "PendingCreation")
      (pending 0)
    ≡ (returned tt, record { phase = "Ready"; failures = 0 })
unfolding is_node_should_be_managed_on_secret first_matching
define_host_using_exponential_backoff-creates_example =
    define_host_using_exponential_backoff-creates cluster none none (definition "PendingCreation")
      (pending 0) (pending 0) (pending 0) (pending 0) (pending 0) (pending 0) ready ready request
      empty_response refl refl refl refl refl refl refl refl ready ready
      (definition "PendingCreation" ∷ []) (definition "Ready" ∷ []) refl refl refl refl

define_host_using_exponential_backoff-Ends_example :
    (m : ℕ) × (d : ℕ) × (t : ClusterState) × Passes cluster none none
      (definition "PendingCreation")
      5
      3
      (pending 2)
      m
      d
      t
    × Ends cluster none none (definition "PendingCreation") m d t (
        define_host_using_exponential_backoff cluster none none
          (definition "PendingCreation")
          (pending 2))
define_host_using_exponential_backoff-Ends_example =
    define_host_using_exponential_backoff-Ends cluster none none (definition "PendingCreation")
      (pending 2)

abbrev define_nodes : SecretInfo → Exec (List SecretInfo × ℕ) (Unit {0})
define_nodes info (secrets, n) = (returned tt, (secrets, suc n))

handle_deleted_watch_event-handle_added_watch_event_example :
    (after : List SecretInfo) × (t : ℕ) × (rest : List SecretInfo) × (handle_added_watch_event
        define_nodes
        (secret "a" ∷ secret "b" ∷ [])
        (secret "b" ∷ [], 0)
      ≡ (returned tt, (after, t)))
    × (handle_deleted_watch_event (secret "a" ∷ secret "b" ∷ []) (after, t)
        ≡ (returned tt, (rest, t)))
    × ((k : SecretInfo) → count k rest ≡ count k (secret "b" ∷ []))
handle_deleted_watch_event-handle_added_watch_event_example =
    handle_deleted_watch_event-handle_added_watch_event define_nodes (λ i l s. (suc s, refl))
      (secret "a" ∷ secret "b" ∷ []) (secret "b" ∷ []) 0
