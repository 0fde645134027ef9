-- ===== src/HostDefiner/Pending.antt =====
-- controllers/servers/host_definer/watcher/host_definition_watcher.py: the thread of a HostDefinition whose phase is
-- pending. It tries five times, with longer and longer pauses, in which the cluster may change.
use ibm_block_csi_driver.Prelude.{
  ℕ, zero, suc, ◌*◌, Bool, true, false, not, ◌&&◌, Option, none, some, String, nat_eq, starts_with,
  ◌==◌, if◌then◌else◌,
}
use ibm_block_csi_driver.Exec.{Exec, pure, when, ◌>>=◌, ◌>>◌}
use ibm_block_csi_driver.HostDefiner.Definition.{DefineHostResponse, Failure, empty_response}
use ibm_block_csi_driver.HostDefiner.Watcher.{
  HostDefinitionInfo, Cluster, pending_creation_phase, pending_deletion_phase, error_phase,
  ready_phase, get_matching_host_definition_info, is_host_can_be_undefined,
  is_node_should_be_managed_on_secret, ensure_definition_state, set_host_definition_status_to_ready,
  remove_manage_node_label,
}

-- HOST_DEFINITION_PENDING_RETRIES
abbrev pub pending_retries : ℕ
pending_retries = 5

-- `_is_host_definition_in_pending_phase`
unfoldable pub is_host_definition_in_pending_phase : String → Bool
unfolding starts_with
is_host_definition_in_pending_phase phase = starts_with "Pending" phase

-- `_get_action`
unfoldable pub get_action : String → String
get_action phase = if phase == pending_creation_phase then "Define" else "Undefine"

abbrev pub is_settled : Option HostDefinitionInfo → Bool
is_settled none = true
is_settled (some d) = d.phase == ready_phase

module _ {S : Type 0} (cluster : Cluster S)
    (dynamic_node_labeling allow_delete : Option String) where
  -- `_is_host_definition_not_pending`
  unfoldable pub is_host_definition_not_pending : HostDefinitionInfo → Exec S Bool
  unfolding get_matching_host_definition_info
  is_host_definition_not_pending info =
      get_matching_host_definition_info cluster dynamic_node_labeling allow_delete info >>= λ d.
      pure (is_settled d)

  -- `_is_pending_for_deletion_need_to_be_handled`
  unfoldable pub is_pending_for_deletion_need_to_be_handled : String → String → Exec S Bool
  unfolding is_host_can_be_undefined
  is_pending_for_deletion_need_to_be_handled phase node =
      if phase == pending_deletion_phase
      then is_host_can_be_undefined cluster dynamic_node_labeling allow_delete node
      else pure false

  is_managed : HostDefinitionInfo → Exec S Bool
  unfolding is_node_should_be_managed_on_secret
  is_managed info =
      is_node_should_be_managed_on_secret cluster dynamic_node_labeling allow_delete info.node_name
        info.secret_name info.secret_namespace

  define_managed : HostDefinitionInfo → Exec S DefineHostResponse
  unfolding ensure_definition_state
  define_managed info = do
    response ←
        ensure_definition_state cluster dynamic_node_labeling allow_delete info cluster.define_host
    cluster.patch_host_definition info.name response
    pure response

  -- `_define_host_after_pending`
  unfoldable pub define_host_after_pending : HostDefinitionInfo → Exec S DefineHostResponse
  unfolding is_managed define_managed
  define_host_after_pending info = is_managed info >>= λ managed.
      if managed
      then define_managed info
      else (cluster.delete_host_definition info.name >> pure empty_response)

  -- `_undefine_host_after_pending`
  unfoldable pub undefine_host_after_pending : HostDefinitionInfo → Exec S DefineHostResponse
  unfolding is_managed ensure_definition_state
  undefine_host_after_pending info = is_managed info >>= λ managed.
      if managed
      then ensure_definition_state cluster dynamic_node_labeling allow_delete info
          cluster.undefine_host
      else pure empty_response

  -- `_handle_message_from_storage`
  unfoldable pub handle_message_from_storage :
      HostDefinitionInfo → Option Failure → String → Exec S (Unit {0})
  unfolding set_host_definition_status_to_ready is_pending_for_deletion_need_to_be_handled
      remove_manage_node_label
  handle_message_from_storage info (some f) action = cluster.create_k8s_event info (some f) action
  handle_message_from_storage info none action =
      if info.phase == pending_creation_phase
      then set_host_definition_status_to_ready cluster dynamic_node_labeling allow_delete info
      else (is_pending_for_deletion_need_to_be_handled info.phase info.node_name >>= λ handled.
          when handled (
            cluster.delete_host_definition info.name
            >> remove_manage_node_label cluster dynamic_node_labeling allow_delete info.node_name))

  -- The response of the array in `_handle_pending_host_definition`
  unfoldable pub respond : HostDefinitionInfo → Exec S DefineHostResponse
  unfolding define_host_after_pending is_pending_for_deletion_need_to_be_handled
      undefine_host_after_pending
  respond info =
      if info.phase == pending_creation_phase
      then define_host_after_pending info
      else (is_pending_for_deletion_need_to_be_handled info.phase info.node_name >>= λ handled.
          if handled then undefine_host_after_pending info else pure empty_response)

  -- `_handle_pending_host_definition`
  unfoldable pub handle_pending_host_definition : HostDefinitionInfo → Exec S (Unit {0})
  unfolding respond handle_message_from_storage get_action
  handle_pending_host_definition info = respond info >>= λ response.
      handle_message_from_storage info response.failure (get_action info.phase)

  -- `_set_host_definition_phase_to_error`
  unfoldable pub set_host_definition_phase_to_error : HostDefinitionInfo → Exec S (Unit {0})
  set_host_definition_phase_to_error info = cluster.set_host_definition_status info.name error_phase

  -- What a pass of the loop does where it does not end it
  unfoldable pub try_again : HostDefinitionInfo → ℕ → Exec S (Unit {0})
  unfolding handle_pending_host_definition
  try_again info delay = handle_pending_host_definition info >> cluster.sleep delay

  -- The loop, by the retries that are left and the last pause
  unfoldable pub retry_pending : HostDefinitionInfo → ℕ → ℕ → Exec S (Unit {0})
  unfolding is_host_definition_not_pending try_again set_host_definition_phase_to_error
  retry_pending info zero delay = set_host_definition_phase_to_error info
  retry_pending info (suc n) delay = do
    let rest = retry_pending info n (delay * 3)
    not_pending ← is_host_definition_not_pending info
    if not_pending && not (nat_eq (suc n) pending_retries)
        then pure tt
        else (try_again info (delay * 3) >> rest)

  -- `_define_host_using_exponential_backoff`
  unfoldable pub define_host_using_exponential_backoff : HostDefinitionInfo → Exec S (Unit {0})
  unfolding retry_pending
  define_host_using_exponential_backoff info = retry_pending info pending_retries 3
