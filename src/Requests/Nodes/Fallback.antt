-- ===== src/Requests/Nodes/Fallback.antt =====
-- Where a node's initiators come from: its annotations, or a node id in the legacy format.
use ibm_block_csi_driver.Prelude.{
  ◌≡◌, refl, ap, ◌∙◌, false, none, some, String, List, [], ◌∷◌, split, join, contains, strip, ◌==◌,
  eq_iff, subst, sym, arith, NoneHolds, split-join, split-no_separator, contains-first_part,
  Bool-cases, inl, inr,
}
use ibm_block_csi_driver.Outcome.{Outcome, returned, raised, ◌>>=◌}
use ibm_block_csi_driver.Requests.Nodes.{
  Initiators, NodeApi, node_name, make_initiators, filter_empty_parts, has_any, no_initiators,
  one_if_truthy, ports_of, from_parts, parse_legacy_node_id, generate_initiators,
  get_node_initiators_data, get_node_initiators, settle,
}

filter-one_if_truthy :
    (s : String) → filter_empty_parts (one_if_truthy s) ≡ filter_empty_parts (s ∷ [])
unfolding filter_empty_parts strip
filter-one_if_truthy s = elim (Bool-cases (s == "")) [
  | inl e ↦
      subst (λ t. filter_empty_parts (one_if_truthy t) ≡ filter_empty_parts (t ∷ []))
        (sym ((eq_iff s "").0 e)) refl
  | inr e ↦ rw e
]

filter-ports_of : (s : String) → filter_empty_parts (ports_of s) ≡ filter_empty_parts (split ":" s)
unfolding filter_empty_parts strip split
filter-ports_of s = elim (Bool-cases (s == "")) [
  | inl e ↦
      subst (λ t. filter_empty_parts (ports_of t) ≡ filter_empty_parts (split ":" t))
        (sym ((eq_iff s "").0 e)) refl
  | inr e ↦ rw e
]

-- A node id in the legacy format, `node_name;nvme_nqn;fc_wwns;iscsi_iqn` with the ports of `fc_wwns`
-- joined by colons, is read as the initiators that it was made of, empty ones left out.
parse_legacy_node_id-join :
    (name nvme iqn wwn : String) (wwns : List String)
    → NoneHolds ";" (name ∷ nvme ∷ join ":" (wwn ∷ wwns) ∷ iqn ∷ [])
    → NoneHolds ":" (wwn ∷ wwns)
    → parse_legacy_node_id (join ";" (name ∷ nvme ∷ join ":" (wwn ∷ wwns) ∷ iqn ∷ []))
      ≡ some (make_initiators (nvme ∷ []) (wwn ∷ wwns) (iqn ∷ []))
unfolding parse_legacy_node_id
parse_legacy_node_id-join name nvme iqn wwn wwns h k =
    ap from_parts (split-join ";" name (nvme ∷ join ":" (wwn ∷ wwns) ∷ iqn ∷ []) h.0 h.1) ∙ λ i.
    some (record {
      nvme_nqns = filter-one_if_truthy nvme i;
      fc_wwns =
          (filter-ports_of (join ":" (wwn ∷ wwns))
              ∙ ap filter_empty_parts (split-join ":" wwn wwns k.0 k.1))
            i;
      iscsi_iqns = filter-one_if_truthy iqn i;
    })

-- What is left of a node id once the node name is taken out of it is never in the legacy format.
parse_legacy_node_id-node_name :
    (node_id : String) → parse_legacy_node_id (node_name node_id) ≡ none
unfolding parse_legacy_node_id node_name
parse_legacy_node_id-node_name node_id = elim (Bool-cases (contains ";" node_id)) [
  | inl e ↦ rw (e, split-no_separator ";" _ (contains-first_part ";" node_id))
  | inr e ↦ rw (e, split-no_separator ";" _ e)
]

settle-none :
    (api : NodeApi) (name : String) (o : Outcome Initiators)
    → parse_legacy_node_id name ≡ none
    → ((i : Initiators) → o ≡ returned i → has_any i ≡ false)
    → settle api name o ≡ no_initiators
settle-none api name (returned i) e h = rw (h i refl) (ground arith)
settle-none api name (raised x) e h = ground arith

-- Publishing and unpublishing take the node name out of the node id before they ask for the node's
-- initiators. So where the annotations give none, or reading them fails, no initiators are found for
-- any node id: the ones that a legacy node id carries are never read.
legacy_initiators_lost :
    (api : NodeApi) (node_id : String)
    → ((i : Initiators)
        → (get_node_initiators_data api (node_name node_id) "" >>= generate_initiators api)
          ≡ returned i
        → has_any i ≡ false)
    → get_node_initiators api (node_name node_id) ≡ no_initiators
unfolding get_node_initiators
legacy_initiators_lost api node_id h =
    settle-none api (node_name node_id) _ (parse_legacy_node_id-node_name node_id) h
