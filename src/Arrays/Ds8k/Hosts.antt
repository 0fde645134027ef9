-- ===== src/Arrays/Ds8k/Hosts.antt =====
-- controllers/array_action/array_mediator_ds8k.py: volumes mapped to hosts, and hosts searched for by their
-- ports.
use ibm_block_csi_driver.Prelude.{
  ℕ, Option, none, some, String, List, [], ◌∷◌, truthy, Dict, insert, ◌==◌, if◌then◌else◌,
}
use ibm_block_csi_driver.Errors.{Exception, Ds8kError}
use ibm_block_csi_driver.Exec.{Exec, pure, raise, lift, ◌>>=◌}
use ibm_block_csi_driver.Requests.Nodes.{Initiators, is_match, fibre_channel}
use ibm_block_csi_driver.Arrays.Mediator.{Host}
use ibm_block_csi_driver.Arrays.Ds8k.{
  ApiHost, Ds8kClient, has, except_client, not_found_or, reraise, scsi_id_to_volume_id,
}
use ibm_block_csi_driver.Arrays.Ds8k.Luns.{scsilun_to_int}

-- The LUN id of the first mapping of a volume, in a list of LUN ids and volume ids
unfoldable pub lun_of : String → List (String × String) → Option String
lun_of volume_id [] = none
lun_of volume_id ((lun, volume) ∷ rest) =
    if volume == volume_id then some lun else lun_of volume_id rest

-- The first host with one of the wanted ports
unfoldable pub first_host : Initiators → List ApiHost → Option ApiHost
first_host initiators [] = none
first_host initiators (h ∷ hs) =
    if is_match initiators.fc_wwns h.host_ports_briefs then some h else first_host initiators hs

-- What `map_volume` raises; `NotFound` is told apart before.
unfoldable pub mapping_error : String → Exception
mapping_error message =
    if has message "BE74121B"
    then Exception.no_available_lun
    else if has message "BE586015"
    then Exception.object_not_found
    else Exception.mapping_error

unfoldable pub unmapping_error : String → Exception
unmapping_error message =
    if has message "BE7A0016"
    then Exception.host_not_found
    else if has message "BE7A001F"
    then Exception.volume_already_unmapped
    else Exception.unmapping_error

-- The ports that are online
unfoldable pub online_ports : List (String × String) → List String
online_ports [] = []
online_ports ((wwpn, state) ∷ ports) =
    let rest = online_ports ports in if state == "online" then wwpn ∷ rest else rest

module _ {S : Type 0} (client : Ds8kClient S) where
  -- `_get_api_host`
  unfoldable pub get_api_host : String → Exec S ApiHost
  get_api_host name =
      except_client (client.get_host name) (not_found_or (raise Exception.host_not_found) reraise)

  -- `get_array_fc_wwns`
  unfoldable pub get_array_fc_wwns : String → Exec S (List String)
  unfolding get_api_host online_ports
  get_array_fc_wwns host = get_api_host host >>= λ h. pure (online_ports h.login_ports)

  -- `get_host_by_name`
  unfoldable pub get_host_by_name : String → Exec S Host
  unfolding get_api_host
  get_host_by_name name = get_api_host name >>= λ h. pure (record {
    name = h.name;
    connectivity_types = elim h.host_ports_briefs [ [] ↦ [] | p ∷ ps ↦ fibre_channel ∷ [] ];
    initiators = record { nvme_nqns = []; fc_wwns = h.host_ports_briefs; iscsi_iqns = [] };
  })

  abbrev settled : Option ApiHost → Exec S (String × List String)
  settled none = raise Exception.host_not_found
  settled (some h) =
      if truthy h.name then pure (h.name, fibre_channel ∷ []) else raise Exception.host_not_found

  -- `get_host_by_host_identifiers`
  unfoldable pub get_host_by_host_identifiers : Initiators → Exec S (String × List String)
  unfolding first_host
  get_host_by_host_identifiers initiators =
      client.get_hosts >>= λ hs. settled (first_host initiators hs)

  lun_number : String → Exec S ℕ
  unfolding scsilun_to_int
  lun_number lun = lift (scsilun_to_int lun)

  abbrev refused : Ds8kError → String → Exec S ℕ
  unfolding mapping_error
  refused kind message = raise (mapping_error message)

  -- `map_volume`
  unfoldable pub map_volume : String → String → Exec S ℕ
  unfolding scsi_id_to_volume_id lun_number refused
  map_volume volume_id host =
      except_client (client.map_volume_to_host host (scsi_id_to_volume_id volume_id) >>= lun_number)
        (not_found_or (raise Exception.host_not_found) refused)

  -- The mappings of a volume on the hosts
  unfoldable pub mappings_of : String → List ApiHost → Dict ℕ → Exec S (Dict ℕ)
  unfolding lun_number lun_of
  mappings_of volume_id [] luns = pure luns
  mappings_of volume_id (h ∷ hs) luns = elim (lun_of volume_id h.mappings_briefs) [
    | none ↦ mappings_of volume_id hs luns
    | some lun ↦ lun_number lun >>= λ n. mappings_of volume_id hs (insert h.name n luns)
  ]

  -- `get_volume_mappings`
  unfoldable pub get_volume_mappings : String → Exec S (Dict ℕ)
  unfolding scsi_id_to_volume_id mappings_of
  get_volume_mappings volume_id =
      except_client (client.get_hosts >>= λ hs. mappings_of (scsi_id_to_volume_id volume_id) hs [])
        reraise

  abbrev unmap_lun : String → Option String → Exec S (Unit {0})
  unmap_lun host none = raise Exception.object_not_found
  unmap_lun host (some lun) = client.unmap_volume_from_host host lun

  -- `unmap_volume`
  unfoldable pub unmap_volume : String → String → Exec S (Unit {0})
  unfolding scsi_id_to_volume_id lun_of unmapping_error
  unmap_volume volume_id host =
      except_client
        (client.get_host_mappings host >>= λ ms.
          unmap_lun host (lun_of (scsi_id_to_volume_id volume_id) ms))
        (λ kind message. raise (unmapping_error message))
