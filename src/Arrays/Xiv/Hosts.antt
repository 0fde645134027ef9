-- ===== src/Arrays/Xiv/Hosts.antt =====
-- controllers/array_action/array_mediator_xiv.py: volumes mapped to hosts at a free LUN, and hosts searched for
-- by their ports. What `randint` draws is an argument.
use ibm_block_csi_driver.Prelude.{
  Bool, ℕ, ◌-◌, ◌||◌, ◌&&◌, Option, none, some, String, List, [], ◌∷◌, ◌++◌, Dict, insert, elem,
  length, finds, join, nat_eq, split, truthy, ◌==◌, if◌then◌else◌,
}
use ibm_block_csi_driver.Prelude.Numbers.{span, not_in, get_elem?}
use ibm_block_csi_driver.Errors.{Exception, XcliError}
use ibm_block_csi_driver.Exec.{Exec, pure, raise, ◌>>=◌, ◌>>◌}
use ibm_block_csi_driver.Requests.Nodes.{Initiators, is_match, fibre_channel, iscsi}
use ibm_block_csi_driver.Arrays.Mediator.{Host}
use ibm_block_csi_driver.Arrays.Xiv.{CliHost, IpInterface, FcPort, XcliClient, except_xcli}
use ibm_block_csi_driver.Arrays.Xiv.Volumes.{raising, get_object_name_by_wwn}

-- `string_to_array`, for a comma: no part is stripped.
unfoldable pub string_to_array : String → List String
unfolding split
string_to_array s = if truthy s then split "," s else []

-- The LUNs of a host that are free, of 1 to 250
unfoldable pub available_luns : List ℕ → List ℕ
unfolding span not_in
available_luns used = not_in used (span 1 250)

-- What `map_volume` and `unmap_volume` raise
unfoldable pub mapping_error : (XcliError → Bool) → XcliError → String → Exception
mapping_error is_command_failed XcliError.forbidden_for_user status = Exception.permission_denied
mapping_error is_command_failed XcliError.volume_bad_name status = Exception.object_not_found
mapping_error is_command_failed XcliError.host_bad_name status = Exception.host_not_found
mapping_error is_command_failed kind status =
    if is_command_failed kind
    then (if finds "LUN is already in use" status
        then Exception.lun_already_in_use
        else Exception.mapping_error)
    else Exception.xcli_error kind status

unfoldable pub unmapping_error : (XcliError → Bool) → XcliError → String → Exception
unmapping_error is_command_failed XcliError.volume_bad_name status = Exception.object_not_found
unmapping_error is_command_failed XcliError.host_bad_name status = Exception.host_not_found
unmapping_error is_command_failed XcliError.forbidden_for_user status = Exception.permission_denied
unmapping_error is_command_failed kind status =
    if is_command_failed kind
    then (if finds "The requested mapping is not defined" status
        then Exception.volume_already_unmapped
        else Exception.unmapping_error)
    else Exception.xcli_error kind status

abbrev host_error : XcliError → String → Exception
host_error XcliError.host_bad_name status = Exception.host_not_found
host_error kind status = Exception.xcli_error kind status

-- `set.add`, over a list without repetition
unfoldable pub add_name : String → List String → List String
add_name x names = if elem x names then names else x ∷ names

-- The loop of `get_host_by_host_identifiers`: the names of the hosts that match, and the port types in the order of the matches
unfoldable pub matching :
    Initiators → List CliHost → List String × List String → List String × List String
unfolding add_name string_to_array is_match
matching initiators [] acc = acc
matching initiators (h ∷ hs) (names, types) =
    let by_fc = is_match initiators.fc_wwns (string_to_array h.fc_ports) in
    let by_iscsi = is_match initiators.iscsi_iqns (string_to_array h.iscsi_ports) in
    matching initiators hs (
      if by_fc || by_iscsi then add_name h.name names else names,
      types
          ++ ((if by_fc then fibre_channel ∷ [] else []) ++ (if by_iscsi then iscsi ∷ [] else [])),
    )

abbrev pub kind : String → List String → List String
kind t [] = []
kind t (p ∷ ps) = t ∷ []

abbrev pub host_of : CliHost → Host
unfolding string_to_array
host_of h =
    let wwns = string_to_array h.fc_ports in
    let iqns = string_to_array h.iscsi_ports in
    record {
      name = h.name;
      connectivity_types = kind fibre_channel wwns ++ kind iscsi iqns;
      initiators = record { nvme_nqns = []; fc_wwns = wwns; iscsi_iqns = iqns };
    }

-- `interface.address6.join('[]')`
abbrev pub bracketed : String → String
bracketed address = join address ("[" ∷ "]" ∷ [])

unfoldable pub iscsi_ips : List IpInterface → List String
iscsi_ips [] = []
iscsi_ips (i ∷ is) =
    let rest = iscsi_ips is in
    let ipv4 = if truthy i.address then i.address ∷ [] else [] in
    let ipv6 = if truthy i.address6 then bracketed i.address6 ∷ [] else [] in
    if i.type == "iSCSI" then ipv4 ++ (ipv6 ++ rest) else rest

unfoldable pub online_targets : List FcPort → List String
online_targets [] = []
online_targets (p ∷ ps) =
    let rest = online_targets ps in
    if p.port_state == "Online" && (p.role == "Target") then p.wwpn ∷ rest else rest

-- The value of the first entry `iscsi_name` of the configuration
unfoldable pub iqn_of : List (String × String) → Option String
iqn_of [] = none
iqn_of ((name, value) ∷ rest) = if name == "iscsi_name" then some value else iqn_of rest

module _ {S : Type 0} (client : XcliClient S) where
  abbrev host_or : Option CliHost → Exec S Host
  host_or none = raise Exception.host_not_found
  host_or (some h) = pure (host_of h)

  -- `get_host_by_name`
  unfoldable pub get_host_by_name : String → Exec S Host
  get_host_by_name name = client.host_list_of name >>= host_or

  unfoldable pub settled : List String × List String → Exec S (String × List String)
  settled ([], types) = raise Exception.host_not_found
  settled (name ∷ [], types) = pure (name, types)
  settled (name ∷ other ∷ names, types) = raise Exception.multiple_hosts_found

  -- `get_host_by_host_identifiers`
  unfoldable pub get_host_by_host_identifiers : Initiators → Exec S (String × List String)
  unfolding matching settled
  get_host_by_host_identifiers initiators =
      client.host_list >>= λ hosts. settled (matching initiators hosts ([], []))

  luns_of : List (String × String) → Dict String → Dict String
  luns_of [] luns = luns
  luns_of ((host, lun) ∷ ms) luns = luns_of ms (insert host lun luns)

  -- `get_volume_mappings`
  unfoldable pub get_volume_mappings : String → Exec S (Dict String)
  unfolding get_object_name_by_wwn luns_of
  get_volume_mappings volume_id = do
    name ← get_object_name_by_wwn client volume_id
    ms ← client.vol_mapping_list name
    pure (luns_of ms [])

  -- `unmap_volume`
  unfoldable pub unmap_volume : String → String → Exec S (Unit {0})
  unfolding get_object_name_by_wwn unmapping_error
  unmap_volume volume_id host = do
    volume ← get_object_name_by_wwn client volume_id
    except_xcli (client.unmap_vol host volume) (raising (unmapping_error client.is_command_failed))

  named : Option String → Exec S String
  named none = raise (Exception.unexpected "StopIteration")
  named (some iqn) = pure iqn

  -- `get_iscsi_targets_by_iqn`, with `_get_array_iqn` and `_get_iscsi_targets`
  unfoldable pub get_iscsi_targets_by_iqn : Exec S (Dict (List String))
  unfolding iqn_of iscsi_ips named
  get_iscsi_targets_by_iqn = do
    config ← client.config_get
    iqn ← named (iqn_of config)
    interfaces ← client.ipinterface_list
    pure ((iqn, iscsi_ips interfaces) ∷ [])

  -- `get_array_fc_wwns`
  unfoldable pub get_array_fc_wwns : Exec S (List String)
  unfolding online_targets
  get_array_fc_wwns = client.fc_port_list >>= λ ports. pure (online_targets ports)

  module _ (randint : ℕ → ℕ → ℕ) where
    drawn : Option ℕ → Exec S ℕ
    drawn none = raise Exception.index_error
    drawn (some lun) = pure lun

    -- The draw of `_get_next_available_lun`, by the LUNs in use
    unfoldable pub draw_lun : List ℕ → Exec S ℕ
    unfolding available_luns get_elem? drawn
    draw_lun used =
        let free = available_luns used in
        if nat_eq (length free) 0
        then raise Exception.no_available_lun
        else drawn (get_elem? free (randint 0 (length free - 1)))

    -- `_get_next_available_lun`
    unfoldable pub get_next_available_lun : String → Exec S ℕ
    unfolding draw_lun
    get_next_available_lun host =
        except_xcli (client.mapping_list host) (raising host_error) >>= draw_lun

    -- `map_volume`
    unfoldable pub map_volume : String → String → Exec S ℕ
    unfolding get_object_name_by_wwn get_next_available_lun mapping_error
    map_volume volume_id host = do
      volume ← get_object_name_by_wwn client volume_id
      lun ← get_next_available_lun host
      except_xcli (client.map_vol host volume lun)
          (raising (mapping_error client.is_command_failed))
      pure lun
