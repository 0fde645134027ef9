-- ===== src/HostDefiner/Ports.antt =====
-- The lists of ports and io groups of
-- controllers/servers/host_definer/storage_manager/host_definer_server.py, and the comparison and choice
-- of initiators in controllers/servers/utils.py.
use ibm_block_csi_driver.Prelude.{
  Bool, true, false, ◌&&◌, ◌||◌, Option, none, some, String, List, [], ◌∷◌, elem, all, is_empty,
  map, lower, split, join, truthy, ◌==◌, if◌then◌else◌,
}
use ibm_block_csi_driver.Errors.{Exception}
use ibm_block_csi_driver.Outcome.{Outcome, returned, raised}
use ibm_block_csi_driver.Requests.Nodes.{
  Initiators, NodeApi, generate_initiators, no_initiators, make_initiators, nvme_over_fc,
  nvme_over_roce, fibre_channel, iscsi,
}

abbrev pub lowered : List String → List String
lowered = map lower

-- The ports of the list whose lower case is not among the names
unfoldable pub without : List String → List String → List String
without names [] = []
without names (p ∷ ps) =
    let rest = without names ps in if elem (lower p) names then rest else p ∷ rest

-- `_get_ports_to_remove`
unfoldable pub get_ports_to_remove : List String → Option (List String) → List String
unfolding without
get_ports_to_remove all_ports none = all_ports
get_ports_to_remove all_ports (some keep) =
    if is_empty keep then all_ports else without (lowered keep) all_ports

-- `_get_ports_to_add`: iterating over `None` is a TypeError.
unfoldable pub get_ports_to_add : Option (List String) → List String → Outcome (List String)
unfolding without
get_ports_to_add none existing =
    if is_empty existing then returned [] else raised Exception.type_error
get_ports_to_add (some new) existing =
    returned (if is_empty existing then new else without (lowered existing) new)

-- Equality of the sets of the elements
unfoldable pub same_set : List String → List String → Bool
same_set ps qs = all (λ p. elem p qs) ps && all (λ q. elem q ps) qs

-- `are_initiators_equal` behind the reading of its texts
unfoldable pub same_initiators : Initiators → Initiators → String → Bool
unfolding same_set
same_initiators i j protocol =
    let nvme_equal = same_set (lowered i.nvme_nqns) (lowered j.nvme_nqns) in
    let fc_equal = same_set (lowered i.fc_wwns) (lowered j.fc_wwns) in
    let iscsi_equal = same_set (lowered i.iscsi_iqns) (lowered j.iscsi_iqns) in
    if protocol == iscsi
    then iscsi_equal
    else if protocol == fibre_channel
    then fc_equal
    else if protocol == nvme_over_fc
    then nvme_equal
    else nvme_equal && fc_equal && iscsi_equal

abbrev compared : String → Outcome Initiators → Outcome Initiators → Bool
compared protocol (returned i) (returned j) = same_initiators i j protocol
compared protocol (returned i) (raised e) = false
compared protocol (raised e) r = false

-- `are_initiators_equal`
unfoldable pub are_initiators_equal : NodeApi → String → String → String → Bool
unfolding same_initiators
are_initiators_equal api one other protocol =
    compared protocol (generate_initiators api one) (generate_initiators api other)

-- `_create_initiators_for_connectivity_type`
unfoldable pub create_initiators_for_connectivity_type : List String → Option String → Initiators
unfolding make_initiators
create_initiators_for_connectivity_type ports none = no_initiators
create_initiators_for_connectivity_type ports (some t) =
    if t == fibre_channel
    then make_initiators [] ports []
    else if t == iscsi
    then make_initiators [] [] ports
    else if t == nvme_over_fc
    then make_initiators ports [] []
    else no_initiators

-- `_is_protocol_scsi` and `_is_protocol_nvme`
unfoldable pub is_protocol_scsi : Option String → Bool
is_protocol_scsi none = false
is_protocol_scsi (some t) = t == fibre_channel || t == iscsi

unfoldable pub is_protocol_nvme : Option String → Bool
is_protocol_nvme none = false
is_protocol_nvme (some t) = t == nvme_over_fc || t == nvme_over_roce

-- `_is_protocol_switched`
unfoldable pub is_protocol_switched : Option String → Option String → Bool
unfolding is_protocol_scsi is_protocol_nvme
is_protocol_switched from_user from_host =
    is_protocol_nvme from_host && is_protocol_scsi from_user
    || is_protocol_scsi from_host && is_protocol_nvme from_user

-- `_get_host_protocol`
unfoldable pub get_host_protocol : Option String → String
unfolding is_protocol_scsi is_protocol_nvme
get_host_protocol t =
    if is_protocol_scsi t then "scsi" else if is_protocol_nvme t then "nvme" else ""

-- `list.pop(list.index(element))`; a list without the element stays.
unfoldable pub pop_first : String → List String → List String
pop_first e [] = []
pop_first e (x ∷ xs) = if x == e then xs else x ∷ pop_first e xs

abbrev pub or_add : Bool → String → List String × List String → List String × List String
or_add true e (add, delete) = (add, delete)
or_add false e (add, delete) = (e ∷ add, delete)

-- `_get_io_group_to_remove_and_add_lists`: what to add, and what to delete
unfoldable pub io_group_lists : List String → List String → List String × List String
unfolding pop_first
io_group_lists host [] = ([], host)
io_group_lists host (g ∷ gs) = or_add (elem g host) g (io_group_lists (pop_first g host) gs)

-- `_split_io_group_from_user`
unfoldable pub split_io_group_from_user : String → List String
unfolding split
split_io_group_from_user g = if truthy g then split ":" g else split ":" "0:1:2:3"

-- `_get_io_group_to_modify`: what to remove, and what to add
unfoldable pub get_io_group_to_modify : Option (List String) → String → String × String
unfolding io_group_lists split_io_group_from_user join
get_io_group_to_modify none from_user = ("", join ":" (split_io_group_from_user from_user))
get_io_group_to_modify (some host) from_user =
    let (add, delete) = io_group_lists host (split_io_group_from_user from_user) in
    (join ":" delete, join ":" add)
