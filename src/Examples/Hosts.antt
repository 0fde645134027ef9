-- ===== src/Examples/Hosts.antt =====
-- Ports, io groups and texts of initiators of a host and of a node.
use ibm_block_csi_driver.Prelude.{
  ◌-◌, ◌≡◌, refl, ◌↔◌, true, none, some, String, List, [], ◌∷◌, elem, strip,
}
use ibm_block_csi_driver.Outcome.{returned}
use ibm_block_csi_driver.Requests.Nodes.{
  NodeApi, fibre_channel, make_initiators, generate_initiators,
}
use ibm_block_csi_driver.HostDefiner.Ports.{
  lowered, are_initiators_equal, io_group_lists, get_ports_to_add, get_ports_to_remove,
}
use ibm_block_csi_driver.HostDefiner.Difference.{
  count, SamePorts, get_ports_to_add-get_ports_to_remove, updated, io_group_lists-count,
  are_initiators_equal_iff,
}

-- Every text of initiators is one FC port.
abbrev api : NodeApi
api = record {
  loads = λ s. some ([], "10:A" ∷ [], []);
  dumps = λ i. "{}";
  read_node = λ name. returned none;
}

io_group_lists-count_example :
    (count "2" (io_group_lists ("0" ∷ "1" ∷ []) ("1" ∷ "2" ∷ [])).0 ≡ 1 - 0)
    × (count "2" (io_group_lists ("0" ∷ "1" ∷ []) ("1" ∷ "2" ∷ [])).1 ≡ 0 - 1)
io_group_lists-count_example = io_group_lists-count "2" ("0" ∷ "1" ∷ []) ("1" ∷ "2" ∷ [])

are_initiators_equal_iff_example :
    ((are_initiators_equal api "a" "b" "" ≡ true)
      ↔ (SamePorts [] [] × SamePorts ("10:A" ∷ []) ("10:A" ∷ []) × SamePorts [] []))
    × ((are_initiators_equal api "a" "b" fibre_channel ≡ true)
        ↔ SamePorts ("10:A" ∷ []) ("10:A" ∷ []))
unfolding generate_initiators make_initiators strip
are_initiators_equal_iff_example =
    are_initiators_equal_iff api "a" "b" (make_initiators [] ("10:A" ∷ []) [])
      (make_initiators [] ("10:A" ∷ []) []) refl refl

-- The port 10:b is taken away and 10:C is added; 10:A stays.
get_ports_to_add-get_ports_to_remove_example :
    (added : List String) × (get_ports_to_add (some ("10:a" ∷ "10:C" ∷ [])) ("10:A" ∷ "10:b" ∷ [])
      ≡ returned added)
    × ((x : String)
        → elem x (
            lowered (
              updated
                ("10:A" ∷ "10:b" ∷ [])
                (get_ports_to_remove ("10:A" ∷ "10:b" ∷ []) (some ("10:a" ∷ "10:C" ∷ [])))
                added))
          ≡ elem x (lowered ("10:a" ∷ "10:C" ∷ [])))
get_ports_to_add-get_ports_to_remove_example =
    get_ports_to_add-get_ports_to_remove ("10:A" ∷ "10:b" ∷ []) ("10:a" ∷ "10:C" ∷ [])
