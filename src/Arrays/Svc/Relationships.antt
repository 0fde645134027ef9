-- ===== src/Arrays/Svc/Relationships.antt =====
-- controllers/array_action/array_mediator_svc.py: remote copy relationships, and which of their ends is
-- the primary one.
use ibm_block_csi_driver.Prelude.{
  Bool, true, false, Option, none, some, String, List, [], ◌∷◌, ◌++◌, finds, join, truthy, ◌==◌,
  if◌then◌else◌,
}
use ibm_block_csi_driver.Errors.{Exception}
use ibm_block_csi_driver.Exec.{Exec, pure, raise, lift, when, ◌>>=◌, ◌>>◌}
use ibm_block_csi_driver.Requests.Addons.{mirror}
use ibm_block_csi_driver.Arrays.Mediator.{Replication, ReplicationRequest}
use ibm_block_csi_driver.Arrays.Svc.{
  text, Rcrelationship, SvcClient, except_cli, unless_warning, reraise,
}
use ibm_block_csi_driver.Arrays.Svc.Kwargs.{
  build_create_replication_kwargs, build_start_replication_kwargs, build_stop_replication_kwargs,
}

-- `_get_replication_endpoint_type`, for the system's own identifier
unfoldable pub get_replication_endpoint_type : String → Rcrelationship → String
get_replication_endpoint_type identifier r =
    if identifier == r.master_cluster_id then "master" else "aux"

-- `_get_other_endpoint_type`
unfoldable pub get_other_endpoint_type : String → String
get_other_endpoint_type endpoint_type = if endpoint_type == "master" then "aux" else "master"

-- `_is_replication_endpoint_primary`, for an endpoint type: none where the array does not say
unfoldable pub is_replication_endpoint_primary : Rcrelationship → String → Option Bool
is_replication_endpoint_primary r endpoint_type =
    if truthy r.primary then some (r.primary == endpoint_type) else none

abbrev pub is_true : Option Bool → Bool
is_true none = false
is_true (some b) = b

-- `_generate_replication_response`
unfoldable pub generate_replication_response : String → Rcrelationship → Replication
unfolding is_replication_endpoint_primary get_replication_endpoint_type
generate_replication_response identifier r = record {
  name = r.name;
  copy_type = if r.copy_type == "global" then "async" else "sync";
  is_ready = r.state == "consistent_synchronized";
  replication_type = mirror;
  is_primary = is_replication_endpoint_primary r (get_replication_endpoint_type identifier r);
  volume_group_id = none;
}

-- A text that may be `None`, as a filter writes it
abbrev shown : Option String → String
shown none = "None"
shown (some s) = s

module _ {S : Type 0} (client : SvcClient S) where
  -- `_get_rcrelationship_by_name`, without its `not_exist_error`
  unfoldable pub get_rcrelationship_by_name : String → Exec S (Option Rcrelationship)
  get_rcrelationship_by_name name = do
    r ← client.lsrcrelationship (join "" ("RC_rel_name=" ∷ name ∷ []))
    lift r.as_single_element

  -- `_get_rcrelationships`, as the one end or as the other
  unfoldable pub get_rcrelationships :
      ReplicationRequest → String → String → Exec S (List Rcrelationship)
  get_rcrelationships request end other_end = do
    let filter = join "" (
        end
        ∷ "_vdisk_id="
        ∷ shown request.volume_internal_id
        ∷ ":"
        ∷ other_end
        ∷ "_vdisk_id="
        ∷ shown request.other_volume_internal_id
        ∷ ":"
        ∷ other_end
        ∷ "_cluster_id="
        ∷ shown request.other_system_id
        ∷ [])
    r ← client.lsrcrelationship filter
    lift r.as_list

  abbrev at_most_one : List Rcrelationship → Exec S (Option Rcrelationship)
  at_most_one [] = pure none
  at_most_one (r ∷ []) = pure (some r)
  at_most_one (r ∷ q ∷ rs) = raise Exception.runtime_error

  -- `_get_rcrelationship`
  unfoldable pub get_rcrelationship : ReplicationRequest → Exec S (Option Rcrelationship)
  unfolding get_rcrelationships
  get_rcrelationship request = do
    as_master ← get_rcrelationships request "master" "aux"
    as_aux ← get_rcrelationships request "aux" "master"
    at_most_one (as_master ++ as_aux)

  -- `_get_replication`
  unfoldable pub get_replication : ReplicationRequest → Exec S (Option Replication)
  unfolding get_rcrelationship generate_replication_response
  get_replication request = get_rcrelationship request >>= λ r. elim r [
    | none ↦ pure none
    | some q ↦ client.identifier >>= λ me. pure (some (generate_replication_response me q))
  ]

  -- A refusal that is only logged
  abbrev logged : {A : Type 0} → A → String → Exec S A
  logged a message = unless_warning a (λ _. pure a) message

  -- `_create_rcrelationship`: the new relationship's id
  unfoldable pub create_rcrelationship : ReplicationRequest → Exec S (Option String)
  unfolding build_create_replication_kwargs
  create_rcrelationship request =
      except_cli
        (client.mkrcrelationship (
          build_create_replication_kwargs (shown request.volume_internal_id)
            (shown request.other_volume_internal_id) (shown request.other_system_id)
            request.copy_type))
        (unless_warning none reraise)

  -- `_start_rcrelationship`
  unfoldable pub start_rcrelationship : Option String → Option String → Bool → Exec S (Unit {0})
  unfolding build_start_replication_kwargs
  start_rcrelationship id primary force =
      except_cli
        (client.svctask "startrcrelationship"
          (build_start_replication_kwargs (shown id) primary force))
        (logged tt)

  -- `_create_replication`
  unfoldable pub create_replication : ReplicationRequest → Exec S (Unit {0})
  unfolding create_rcrelationship start_rcrelationship
  create_replication request =
      create_rcrelationship request >>= λ id. start_rcrelationship id none false

  -- `_stop_rcrelationship`
  unfoldable pub stop_rcrelationship : String → Bool → Exec S (Unit {0})
  unfolding build_stop_replication_kwargs
  stop_rcrelationship id add_access =
      except_cli (client.svctask "stoprcrelationship" (build_stop_replication_kwargs id add_access))
        (logged tt)

  -- `_delete_rcrelationship`
  unfoldable pub delete_rcrelationship : String → Exec S (Unit {0})
  delete_rcrelationship id =
      except_cli (client.svctask "rmrcrelationship" (("object_id", text id) ∷ [])) (logged tt)

  -- `_delete_replication`
  unfoldable pub delete_replication : String → Exec S (Unit {0})
  unfolding get_rcrelationship_by_name stop_rcrelationship delete_rcrelationship
  delete_replication name = get_rcrelationship_by_name name >>= λ r. elim r [
    | none ↦ pure tt
    | some q ↦ stop_rcrelationship q.id false >> delete_rcrelationship q.id
  ]

  -- `_promote_replication_endpoint`
  unfoldable pub promote_replication_endpoint : String → String → Exec S (Unit {0})
  promote_replication_endpoint endpoint_type name =
      except_cli
        (client.svctask "switchrcrelationship"
          (("primary", text endpoint_type) ∷ ("object_id", text name) ∷ []))
        (unless_warning tt reraise)

  -- `_ensure_endpoint_is_primary`: an idle relationship is started the other way round first.
  unfoldable pub ensure_endpoint_is_primary : Rcrelationship → String → Exec S (Unit {0})
  unfolding is_replication_endpoint_primary get_other_endpoint_type start_rcrelationship
      promote_replication_endpoint
  ensure_endpoint_is_primary r endpoint_type =
      let start =
        start_rcrelationship (some r.id) (some (get_other_endpoint_type endpoint_type)) true in
      let promote = promote_replication_endpoint endpoint_type r.name in
      if is_true (is_replication_endpoint_primary r endpoint_type)
      then pure tt
      else (when (r.state == "idling") start >> promote)

  abbrev pub known : Option Rcrelationship → Exec S Rcrelationship
  known none = raise Exception.object_not_found
  known (some r) = pure r

  unfoldable pub promote_connected : Rcrelationship → Exec S (Unit {0})
  unfolding ensure_endpoint_is_primary get_replication_endpoint_type
  promote_connected r =
      client.identifier >>= λ me. ensure_endpoint_is_primary r (get_replication_endpoint_type me r)

  -- `_promote_replication_volume`
  unfoldable pub promote_replication : String → Exec S (Unit {0})
  unfolding get_rcrelationship_by_name ensure_endpoint_is_primary stop_rcrelationship
      promote_connected get_replication_endpoint_type
  promote_replication name = do
    r ← get_rcrelationship_by_name name >>= known
    if finds "disconnected" r.state then stop_rcrelationship r.id true else promote_connected r

  -- `_demote_replication_volume`
  unfoldable pub demote_replication : String → Exec S (Unit {0})
  unfolding get_rcrelationship_by_name ensure_endpoint_is_primary get_replication_endpoint_type
      get_other_endpoint_type
  demote_replication name = do
    r ← get_rcrelationship_by_name name >>= known
    me ← client.identifier
    ensure_endpoint_is_primary r (get_other_endpoint_type (get_replication_endpoint_type me r))
