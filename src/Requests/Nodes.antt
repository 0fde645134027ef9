-- ===== src/Requests/Nodes.antt =====
-- Nodes and their initiators: controllers/common/node_info.py and the functions about initiators in
-- controllers/servers/utils.py. Reading a node from Kubernetes, and JSON, are the environment's.
pub mod Fallback
pub mod Connectivity
use ibm_block_csi_driver.Prelude.{
  ℕ, Bool, true, false, not, ◌||◌, ◌&&◌, Option, none, some, String, List, [], ◌∷◌, Dict, lookup_or,
  map, split, contains, truthy, truthy?, first_part, strip, lower, elem, any, is_empty, ◌==◌,
  if◌then◌else◌,
}
use ibm_block_csi_driver.Errors.{Exception}
use ibm_block_csi_driver.Outcome.{Outcome, returned, raised, raise_if, ◌>>=◌, ◌>>◌}

-- `NodeIdInfo(node_id).node_name`
unfoldable pub node_name : String → String
node_name node_id = if contains ";" node_id then first_part (split ";" node_id) else node_id

pub record Initiators : Type 0 where
  pub nvme_nqns : List String
  pub fc_wwns : List String
  pub iscsi_iqns : List String

-- `_filter_empty_parts`
unfoldable pub filter_empty_parts : List String → List String
filter_empty_parts [] = []
filter_empty_parts (port ∷ ports) =
    let rest = filter_empty_parts ports in if truthy (strip port) then strip port ∷ rest else rest

-- `Initiators(nvme_nqns, fc_wwns, iscsi_iqns)`
unfoldable pub make_initiators : List String → List String → List String → Initiators
unfolding filter_empty_parts
make_initiators nvme fc iscsi = record {
  nvme_nqns = filter_empty_parts nvme;
  fc_wwns = filter_empty_parts fc;
  iscsi_iqns = filter_empty_parts iscsi;
}

abbrev pub nvme_over_fc : String
nvme_over_fc = "nvmeofc"

abbrev pub nvme_over_roce : String
nvme_over_roce = "nvmeoroce"

abbrev pub fibre_channel : String
fibre_channel = "fc"

abbrev pub iscsi : String
iscsi = "iscsi"

unfoldable pub get_by_connectivity_type : Initiators → String → Option (List String)
get_by_connectivity_type i t =
    if t == nvme_over_fc || t == nvme_over_roce
    then some i.nvme_nqns
    else if t == fibre_channel
    then some i.fc_wwns
    else if t == iscsi
    then some i.iscsi_iqns
    else none

-- `_lower`, as a list
unfoldable pub lower_ports : List String → List String
lower_ports [] = []
lower_ports (p ∷ ps) = let rest = lower_ports ps in if truthy p then lower p ∷ rest else rest

-- `_is_match`: whether the two sets meet
unfoldable pub is_match : List String → List String → Bool
unfolding lower_ports filter_empty_parts
is_match ports other_ports =
    any (λ p. elem p (lower_ports (filter_empty_parts other_ports))) (lower_ports ports)

-- `other in self`
unfoldable pub contains_initiators : Initiators → Initiators → Bool
unfolding is_match
contains_initiators self other =
    is_match other.nvme_nqns self.nvme_nqns
    || is_match other.fc_wwns self.fc_wwns
    || is_match other.iscsi_iqns self.iscsi_iqns

-- `initiators.nvme_nqns or initiators.fc_wwns or initiators.iscsi_iqns`
abbrev pub has_any : Initiators → Bool
has_any i = not (is_empty i.nvme_nqns) || not (is_empty i.fc_wwns) || not (is_empty i.iscsi_iqns)

abbrev pub no_initiators : Initiators
no_initiators = record { nvme_nqns = []; fc_wwns = []; iscsi_iqns = [] }

abbrev one_if_truthy : String → List String
one_if_truthy s = if truthy s then s ∷ [] else []

abbrev ports_of : String → List String
ports_of s = if truthy s then split ":" s else []

abbrev from_parts : List String → Option Initiators
from_parts [] = none
from_parts (name ∷ []) = none
from_parts (name ∷ nvme ∷ []) = some (make_initiators (one_if_truthy nvme) [] [])
from_parts (name ∷ nvme ∷ fc ∷ []) = some (make_initiators (one_if_truthy nvme) (ports_of fc) [])
from_parts (name ∷ nvme ∷ fc ∷ iqn ∷ rest) =
    some (make_initiators (one_if_truthy nvme) (ports_of fc) (one_if_truthy iqn))

-- `_parse_initiators_from_legacy_node_id`: the parts are `node_name;nvme_nqn;fc_wwns;iscsi_iqn`.
unfoldable pub parse_legacy_node_id : String → Option Initiators
unfolding make_initiators
parse_legacy_node_id node_id = from_parts (split ";" node_id)

-- `choose_connectivity_type`
unfoldable pub choose_connectivity_type : List String → Option String
choose_connectivity_type types =
    if elem nvme_over_roce types
    then some nvme_over_roce
    else if elem nvme_over_fc types
    then some nvme_over_fc
    else if elem fibre_channel types
    then some fibre_channel
    else if elem iscsi types
    then some iscsi
    else none

-- `_get_connectivity_type_by_initiators`
unfoldable pub connectivity_type_by_initiators : Initiators → Option String
connectivity_type_by_initiators i =
    if not (is_empty i.nvme_nqns)
    then some nvme_over_fc
    else if not (is_empty i.fc_wwns)
    then some fibre_channel
    else if not (is_empty i.iscsi_iqns)
    then some iscsi
    else none

unfoldable pub get_initiators_connectivity_type : Initiators → String → Option String
unfolding connectivity_type_by_initiators
get_initiators_connectivity_type i t =
    if truthy t then some t else connectivity_type_by_initiators i

unfoldable pub validate_connectivity_type : String → Outcome (Unit {0})
validate_connectivity_type t =
    raise_if
      (not (t == nvme_over_fc || t == nvme_over_roce || t == fibre_channel || t == iscsi)
        && truthy t)
      Exception.unsupported_connectivity_type

unfoldable pub get_connectivity_type_ports : Initiators → String → Outcome (List String)
unfolding validate_connectivity_type get_by_connectivity_type
get_connectivity_type_ports i t = do
  validate_connectivity_type t
  elim (get_by_connectivity_type i t) [
    | none ↦ raised Exception.no_port_found_by_connectivity_type
    | some ports ↦
        if is_empty ports
        then raised Exception.no_port_found_by_connectivity_type
        else returned ports
  ]

-- What the environment answers: `json.loads` of initiators (`none` where it raises) as the three lists
-- with their defaults, `json.dumps` of them, and the annotations of a node, if there is the node.
pub record NodeApi : Type 0 where
  pub loads : String → Option (List String × List String × List String)
  pub dumps : List String × List String × List String → String
  pub read_node : String → Outcome (Option (Dict String))

abbrev or_braces : String → String
or_braces s = if truthy s then s else "{}"

module _ (api : NodeApi) where
  -- `generate_node_initiators_from_string_data`
  unfoldable pub generate_initiators : String → Outcome Initiators
  generate_initiators s = elim (api.loads s) [
    | none ↦ raised (Exception.unexpected "JSONDecodeError")
    | some lists ↦ returned (make_initiators lists.0 lists.1 lists.2)
  ]

  annotated : Option (Dict String) → String
  annotated none = ""
  annotated (some annotations) = lookup_or "block.csi.ibm.com/node-initiators" "" annotations

  -- The initiators of a legacy node id, as JSON text.
  legacy_data : String → String
  legacy_data node_id = elim (parse_legacy_node_id node_id) [
    | none ↦ ""
    | some i ↦ api.dumps (i.nvme_nqns, i.fc_wwns, i.iscsi_iqns)
  ]

  -- `get_node_initiators_data`; a node id that is not given is the empty text.
  unfoldable pub get_node_initiators_data : String → String → Outcome String
  unfolding annotated legacy_data
  get_node_initiators_data name node_id = do
    node ← api.read_node name
    let text = annotated node
    returned (or_braces (if not (truthy text) && truthy node_id then legacy_data node_id else text))

  abbrev or_legacy : String → Initiators
  or_legacy node_id = elim (parse_legacy_node_id node_id) [ none ↦ no_initiators | some i ↦ i ]

  abbrev settle : String → Outcome Initiators → Initiators
  settle node_id (returned i) = if has_any i then i else or_legacy node_id
  settle node_id (raised e) = or_legacy node_id

  -- `get_node_initiators`: the annotations first, then the argument read as a legacy node id.
  unfoldable pub get_node_initiators : String → Initiators
  unfolding get_node_initiators_data generate_initiators
  get_node_initiators name =
      settle name (do text ← get_node_initiators_data name ""; generate_initiators text)

  -- `get_initiators_with_fallback`
  unfoldable pub get_initiators_with_fallback : String → String → Initiators
  unfolding generate_initiators
  get_initiators_with_fallback node_initiators node_id =
      let fallback = if truthy node_id then or_legacy node_id else no_initiators in
      if truthy node_initiators
      then (elim (generate_initiators node_initiators) [
        | raised e ↦ fallback
        | returned i ↦ if has_any i then i else fallback
      ])
      else fallback
