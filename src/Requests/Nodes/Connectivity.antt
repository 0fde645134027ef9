-- ===== src/Requests/Nodes/Connectivity.antt =====
-- How a connectivity type is chosen, and the ports that go with it.
use ibm_block_csi_driver.Prelude.{
  ◌≡◌, ◌⊎◌, refl, false, Option, none, some, String, List, [], ◌∷◌, elem, inl, inr, if◌then◌else◌,
}
use ibm_block_csi_driver.Outcome.{returned}
use ibm_block_csi_driver.Requests.Nodes.{
  Initiators, has_any, nvme_over_fc, nvme_over_roce, fibre_channel, iscsi, choose_connectivity_type,
  connectivity_type_by_initiators, get_connectivity_type_ports,
}

-- The types in the order of preference.
abbrev preference : List String
preference = nvme_over_roce ∷ nvme_over_fc ∷ fibre_channel ∷ iscsi ∷ []

-- The first of the wanted types that is offered.
abbrev first_offered : List String → List String → Option String
first_offered [] offered = none
first_offered (t ∷ ts) offered = if elem t offered then some t else first_offered ts offered

-- What the choice of a type for a node's initiators promises.
abbrev TypeFor : Initiators → Type 0
TypeFor i =
    ((t : String) × (p : String) × (ps : List String) × (connectivity_type_by_initiators i ≡ some t)
      × (get_connectivity_type_ports i t ≡ returned (p ∷ ps)))
    ⊎ ((has_any i ≡ false) × (connectivity_type_by_initiators i ≡ none))

type_for : (n f s : List String) → TypeFor (record { nvme_nqns = n; fc_wwns = f; iscsi_iqns = s })
unfolding connectivity_type_by_initiators get_connectivity_type_ports
type_for (p ∷ ps) f s = inl (nvme_over_fc, p, ps, refl, refl)
type_for [] (p ∷ ps) s = inl (fibre_channel, p, ps, refl, refl)
type_for [] [] (p ∷ ps) = inl (iscsi, p, ps, refl, refl)
type_for [] [] [] = inr (refl, refl)

-- Whatever initiators a node has, the type chosen for them is one with ports, and no type is chosen
-- only where there are no initiators at all.
connectivity_type-ports :
    (i : Initiators)
    → ((t : String) × (p : String) × (ps : List String) × (connectivity_type_by_initiators i
          ≡ some t)
        × (get_connectivity_type_ports i t ≡ returned (p ∷ ps)))
      ⊎ ((has_any i ≡ false) × (connectivity_type_by_initiators i ≡ none))
connectivity_type-ports i = type_for i.nvme_nqns i.fc_wwns i.iscsi_iqns

-- The type chosen for a host is the first that it offers in the order NVMe over RoCE, NVMe over FC,
-- FC, iSCSI, and none is chosen where it offers none of the four.
choose_connectivity_type-first :
    (offered : List String) → choose_connectivity_type offered ≡ first_offered preference offered
unfolding choose_connectivity_type
choose_connectivity_type-first offered = refl
