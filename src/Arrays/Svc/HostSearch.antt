-- ===== src/Arrays/Svc/HostSearch.antt =====
-- controllers/array_action/array_mediator_svc.py: the search of a host by the initiators of a node. A set
-- of names is a list without repetition; `pop` takes the only element of one.
use ibm_block_csi_driver.Prelude.{
  Bool, Option, none, some, String, List, [], ◌∷◌, ◌++◌, elem, is_empty, truthy, ◌==◌,
  if◌then◌else◌,
}
use ibm_block_csi_driver.Errors.{Exception}
use ibm_block_csi_driver.Exec.{Exec, pure, raise, lift, ◌>>=◌}
use ibm_block_csi_driver.Requests.Nodes.{Initiators, is_match, nvme_over_fc, fibre_channel, iscsi}
use ibm_block_csi_driver.Arrays.Svc.{text, CliHost, SvcClient, has, except_cli, reraise}
use ibm_block_csi_driver.Arrays.Svc.HostQueries.{get_host_ports}

-- `set.update`
unfoldable pub update : List String → List String → List String
update [] names = names
update (x ∷ xs) names = let rest = update xs names in if elem x rest then rest else x ∷ rest

-- The name that the loop over the hosts leaves: that of the last host that matches
unfoldable pub last_match : (CliHost → Bool) → List CliHost → Option String
last_match p [] = none
last_match p (h ∷ hs) = elim (last_match p hs) [
  | some name ↦ some name
  | none ↦ if p h then some h.name else none
]

abbrev present : Option String → List String
present none = []
present (some name) = name ∷ []

abbrev the_only : List String → Option String
the_only (name ∷ []) = some name
the_only _ = none

-- `_get_host_name_if_equal`
unfoldable pub get_host_name_if_equal :
    Option String → Option String → Option String → Option String
unfolding update
get_host_name_if_equal nvme fc iqn =
    the_only (update (present nvme ++ present iqn ++ present fc) [])

abbrev matches : String → Initiators → CliHost → Bool
matches t initiators h =
    if t == nvme_over_fc
    then is_match initiators.nvme_nqns (get_host_ports h.nqn)
    else if t == fibre_channel
    then is_match initiators.fc_wwns (get_host_ports h.wwpn)
    else is_match initiators.iscsi_iqns (get_host_ports h.iscsi_name)

kinds_of : String → Option String → List String
kinds_of t none = []
kinds_of t (some name) = t ∷ []

-- `filter(None, host_names)`
unfoldable pub named_hosts : List String → List String
named_hosts [] = []
named_hosts (x ∷ xs) = let rest = named_hosts xs in if truthy x then x ∷ rest else rest

module _ {S : Type 0} (client : SvcClient S) where
  settled : List String → Option String → Exec S (String × List String)
  settled kinds none =
      raise (if is_empty kinds then Exception.host_not_found else Exception.multiple_hosts_found)
  settled kinds (some name) =
      if is_empty kinds
      then raise Exception.host_not_found
      else if truthy name
      then pure (name, kinds)
      else raise Exception.multiple_hosts_found

  -- `_get_host_by_host_identifiers_slow`
  unfoldable pub get_host_by_host_identifiers_slow : Initiators → Exec S (String × List String)
  unfolding last_match get_host_name_if_equal kinds_of settled
  get_host_by_host_identifiers_slow initiators = do
    hosts ← client.detailed_hosts
    let nvme = last_match (matches nvme_over_fc initiators) hosts
    let fc = last_match (matches fibre_channel initiators) hosts
    let iqn = last_match (matches iscsi initiators) hosts
    settled (kinds_of nvme_over_fc nvme ++ kinds_of fibre_channel fc ++ kinds_of iscsi iqn)
        (get_host_name_if_equal nvme fc iqn)

  -- `_lsnvmefabric`: no names where the array does not know the command
  unfoldable pub get_host_names_by_nqn : String → Exec S (List String)
  unfolding update
  get_host_names_by_nqn nqn =
      let asked : Exec S (List String) =
        except_cli (client.lsnvmefabric (("remotenqn", text nqn) ∷ []) >>= λ r. lift r.as_list)
          (λ message. if has message "CMMVC7205E" then pure [] else reraise message) in
      if client.supports "lsnvmefabric"
      then (asked >>= λ names. pure (update names []))
      else pure []

  -- `_get_host_names_by_wwpn`
  unfoldable pub get_host_names_by_wwpn : String → Exec S (List String)
  unfolding update named_hosts
  get_host_names_by_wwpn wwpn = do
    r ← client.lsfabric (("wwpn", text wwpn) ∷ [])
    names ← lift r.as_list
    pure (update (named_hosts names) [])

  -- `_get_host_name_by_iqn`, as a list of at most one name
  unfoldable pub get_host_name_by_iqn : String → Exec S (List String)
  unfolding named_hosts
  get_host_name_by_iqn iqn =
      let asked : Exec S (Option String) =
        except_cli
          (client.lshostiplogin (("object_id", text iqn) ∷ []) >>= λ r. lift r.as_single_element)
          (λ message. if has message "CMMVC5804E" then pure none else reraise message) in
      if client.supports "lshostiplogin"
      then (asked >>= λ name. pure (named_hosts (present name)))
      else pure []

  -- The hosts of the initiators of one type, and the type if there is one
  unfoldable pub gather :
      String
      → (String → Exec S (List String))
      → List String
      → List String × List String
      → Exec S (List String × List String)
  unfolding update
  gather t ask [] (names, kinds) = pure (names, kinds)
  gather t ask (i ∷ is) (names, kinds) = do
    found ← ask i
    gather t ask is
        (if is_empty found then (names, kinds) else (update found names, update (t ∷ []) kinds))

  -- `_get_host_names_and_connectivity_types`
  unfoldable pub get_host_names_and_connectivity_types :
      Initiators → Exec S (List String × List String)
  unfolding gather get_host_names_by_nqn get_host_names_by_wwpn get_host_name_by_iqn
  get_host_names_and_connectivity_types initiators = do
    a ← gather nvme_over_fc get_host_names_by_nqn initiators.nvme_nqns ([], [])
    b ← gather fibre_channel get_host_names_by_wwpn initiators.fc_wwns a
    gather iscsi get_host_name_by_iqn initiators.iscsi_iqns b

  by_names : Initiators → List String → List String → Exec S (String × List String)
  unfolding get_host_by_host_identifiers_slow
  by_names initiators [] kinds = get_host_by_host_identifiers_slow initiators
  by_names initiators (name ∷ []) kinds = pure (name, kinds)
  by_names initiators (name ∷ other ∷ names) kinds = raise Exception.multiple_hosts_found

  -- `get_host_by_host_identifiers`
  unfoldable pub get_host_by_host_identifiers : Initiators → Exec S (String × List String)
  unfolding get_host_names_and_connectivity_types named_hosts by_names
  get_host_by_host_identifiers initiators = do
    (names, kinds) ← get_host_names_and_connectivity_types initiators
    by_names initiators (named_hosts names) kinds
