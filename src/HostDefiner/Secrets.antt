-- ===== src/HostDefiner/Secrets.antt =====
-- controllers/servers/host_definer/watcher/watcher_helper.py and storage_class_watcher.py: MANAGED_SECRETS, the
-- secrets of the storage classes of the driver, with the number of classes that use each. What a new secret
-- starts, the definition of the nodes, is an argument, and so are the secrets of a class.
use ibm_block_csi_driver.Prelude.{
  zero, suc, ℤ, pos, negsuc, Bool, true, false, ◌&&◌, Option, none, some, String, List, [], ◌∷◌,
  ◌++◌, Dict, lookup, is_empty, truthy?, ◌==◌, if◌then◌else◌,
}
use ibm_block_csi_driver.Errors.{Exception}
use ibm_block_csi_driver.Outcome.{Outcome, returned, raised}
use ibm_block_csi_driver.Exec.{Exec, pure, ◌>>◌}

-- `SecretInfo`
pub record SecretInfo : Type 0 where
  pub name : String
  pub namespace : String
  pub nodes_with_system_id : Dict String
  pub system_ids_topologies : Dict (List (Dict String))
  pub managed_storage_classes : ℤ

abbrev pub add_one : ℤ → ℤ
add_one (pos n) = pos (suc n)
add_one (negsuc zero) = pos zero
add_one (negsuc (suc n)) = negsuc n

abbrev pub subtract_one : ℤ → ℤ
subtract_one (pos zero) = negsuc zero
subtract_one (pos (suc n)) = pos n
subtract_one (negsuc n) = negsuc (suc n)

abbrev pub is_zero : ℤ → Bool
is_zero (pos zero) = true
is_zero _ = false

abbrev pub is_same_secret : SecretInfo → SecretInfo → Bool
is_same_secret a b = a.name == b.name && (a.namespace == b.namespace)

-- `_get_matching_managed_secret_info`, where none stands for the index -1
unfoldable pub get_matching_managed_secret_info : SecretInfo → List SecretInfo → Option SecretInfo
get_matching_managed_secret_info info [] = none
get_matching_managed_secret_info info (s ∷ secrets) =
    if is_same_secret s info then some s else get_matching_managed_secret_info info secrets

-- `_is_node_should_managed_on_secret_info`, of a secret that is there
unfoldable pub is_node_should_managed_on_secret_info : String → SecretInfo → Bool
is_node_should_managed_on_secret_info node s =
    if is_empty s.nodes_with_system_id then true else truthy? (lookup node s.nodes_with_system_id)

-- `MANAGED_SECRETS[index] = …`, at the index of the first match
unfoldable pub replace_matching :
    SecretInfo → (SecretInfo → SecretInfo) → List SecretInfo → List SecretInfo
replace_matching info f [] = []
replace_matching info f (s ∷ secrets) =
    if is_same_secret s info then f s ∷ secrets else s ∷ replace_matching info f secrets

abbrev pub use_less : SecretInfo → SecretInfo
use_less s = record s { managed_storage_classes = subtract_one s.managed_storage_classes }

-- `MANAGED_SECRETS[-1].managed_storage_classes -= 1`
unfoldable pub use_last_less : List SecretInfo → Outcome (List SecretInfo)
use_last_less [] = raised Exception.index_error
use_last_less (s ∷ []) = returned (use_less s ∷ [])
use_last_less (s ∷ t ∷ secrets) = elim (use_last_less (t ∷ secrets)) [
  | raised e ↦ raised e
  | returned us ↦ returned (s ∷ us)
]

-- One secret of `_handle_deleted_watch_event`
unfoldable pub release_secret : SecretInfo → List SecretInfo → Outcome (List SecretInfo)
unfolding get_matching_managed_secret_info replace_matching use_last_less
release_secret info secrets = elim (get_matching_managed_secret_info info secrets) [
  | none ↦ use_last_less secrets
  | some s ↦ returned (replace_matching info use_less secrets)
]

-- `_handle_deleted_watch_event`
unfoldable pub handle_deleted_watch_event :
    {S : Type 0} → List SecretInfo → Exec (List SecretInfo × S) (Unit {0})
unfolding release_secret
handle_deleted_watch_event [] w = pure tt w
handle_deleted_watch_event (info ∷ infos) (secrets, s) = elim (release_secret info secrets) [
  | raised e ↦ (raised e, (secrets, s))
  | returned rest ↦ handle_deleted_watch_event infos (rest, s)
]

-- `_add_secret_info_to_list`
unfoldable pub add_secret_info_to_list : SecretInfo → List SecretInfo → List SecretInfo
unfolding get_matching_managed_secret_info
add_secret_info_to_list info secrets = elim (get_matching_managed_secret_info info secrets) [
  | none ↦ secrets ++ info ∷ []
  | some s ↦ secrets
]

abbrev pub with_classes : ℤ → SecretInfo → SecretInfo
with_classes n s = record s { managed_storage_classes = n }

module _ {S : Type 0}
    (define_nodes_from_secret_info : SecretInfo → Exec (List SecretInfo × S) (Unit {0})) where
  -- `_define_nodes_when_new_secret`
  unfoldable pub define_nodes_when_new_secret : SecretInfo → Exec (List SecretInfo × S) (Unit {0})
  unfolding get_matching_managed_secret_info replace_matching
  define_nodes_when_new_secret info (secrets, s) =
      let first = with_classes (pos 1) info in
      elim (get_matching_managed_secret_info info secrets) [
        | none ↦ define_nodes_from_secret_info first (secrets ++ first ∷ [], s)
        | some managed ↦
            if is_zero managed.managed_storage_classes
            then define_nodes_from_secret_info first (replace_matching info (λ t. first) secrets, s)
            else (
              returned tt,
              (
                replace_matching info
                    (λ t. with_classes (add_one managed.managed_storage_classes) info) secrets,
                s,
              ),
            )
      ]

  -- `_handle_added_watch_event`
  unfoldable pub handle_added_watch_event : List SecretInfo → Exec (List SecretInfo × S) (Unit {0})
  unfolding define_nodes_when_new_secret
  handle_added_watch_event [] = pure tt
  handle_added_watch_event (info ∷ infos) =
      define_nodes_when_new_secret info >> handle_added_watch_event infos
