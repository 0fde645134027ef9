-- ===== src/Arrays/Svc/HostQueries.antt =====
-- controllers/array_action/array_mediator_svc.py: what the array says of a host.
use ibm_block_csi_driver.Prelude.{
  Bool, true, false, Option, none, some, String, List, [], ◌∷◌, ◌++◌, is_empty, is_some, split,
  truthy, ◌==◌, if◌then◌else◌,
}
use ibm_block_csi_driver.Errors.{Exception}
use ibm_block_csi_driver.Exec.{Exec, pure, raise, raise_if, lift, ◌>>=◌, ◌>>◌}
use ibm_block_csi_driver.Requests.Nodes.{nvme_over_fc, fibre_channel, iscsi}
use ibm_block_csi_driver.Arrays.Mediator.{Host}
use ibm_block_csi_driver.Arrays.Svc.{CliHost, SvcClient, has, except_cli, unless_warning, reraise}

-- `_get_host_ports`
abbrev pub get_host_ports : Option (List String) → List String
get_host_ports none = []
get_host_ports (some ports) = ports

kind : String → List String → List String
kind t [] = []
kind t (p ∷ ps) = t ∷ []

host_of : CliHost → Host
unfolding kind
host_of h =
    let nqns = get_host_ports h.nqn in
    let wwns = get_host_ports h.wwpn in
    let iqns = get_host_ports h.iscsi_name in
    record {
      name = h.name;
      connectivity_types = kind nvme_over_fc nqns ++ kind fibre_channel wwns ++ kind iscsi iqns;
      initiators = record { nvme_nqns = nqns; fc_wwns = wwns; iscsi_iqns = iqns };
    }

module _ {S : Type 0} (client : SvcClient S) where
  unfoldable pub found_host : Option CliHost → Exec S CliHost
  found_host none = raise Exception.host_not_found
  found_host (some h) = pure h

  -- `_get_cli_host`
  unfoldable pub get_cli_host : String → Exec S CliHost
  unfolding found_host
  get_cli_host host = (client.lshost host >>= λ r. lift r.as_single_element) >>= found_host

  -- `get_host_connectivity_ports`: no port at all is an error.
  unfoldable pub get_host_connectivity_ports : String → String → Exec S (List String)
  unfolding get_cli_host
  get_host_connectivity_ports host t = do
    h ← get_cli_host host
    let ports =
        if t == iscsi
        then get_host_ports h.iscsi_name
        else if t == fibre_channel
        then get_host_ports h.wwpn
        else if t == nvme_over_fc
        then get_host_ports h.nqn
        else []
    raise_if (is_empty ports) Exception.unsupported_connectivity_type
    pure ports

  -- `get_host_connectivity_type`
  unfoldable pub get_host_connectivity_type : String → Exec S (Option String)
  unfolding get_cli_host
  get_host_connectivity_type host = do
    h ← get_cli_host host
    pure (
        if is_some h.nqn
        then some nvme_over_fc
        else if is_some h.wwpn
        then some fibre_channel
        else if is_some h.iscsi_name
        then some iscsi
        else none)

  lshostiogrp_error : String → Exec S (Option String)
  lshostiogrp_error message =
      if has message "CMMVC5754E"
      then raise Exception.host_not_found
      else unless_warning none reraise message

  ids_of : Option String → Exec S (List String)
  ids_of none = raise Exception.attribute_error
  ids_of (some ids) = pure (split " " ids)

  -- `get_host_io_group`: the ids. A warning leaves `None`, whose fields are then read.
  unfoldable pub get_host_io_group : String → Exec S (List String)
  unfolding lshostiogrp_error ids_of
  get_host_io_group host =
      except_cli (client.lshostiogrp host >>= λ r. lift r.as_single_element) lshostiogrp_error
      >>= ids_of

  abbrev same_partition : Option String → Option String → Bool
  same_partition none none = true
  same_partition (some p) (some q) = p == q
  same_partition _ _ = false

  abbrev in_partition : Option String → Option String
  in_partition none = none
  in_partition (some p) = if truthy p then some p else none

  -- `verify_host_partition`
  unfoldable pub verify_host_partition : String → Option String → Exec S Bool
  unfolding get_cli_host
  verify_host_partition host partition =
      get_cli_host host >>= λ h. pure (same_partition (in_partition h.partition_name) partition)

  -- `get_host_by_name`
  unfoldable pub get_host_by_name : String → Exec S Host
  unfolding get_cli_host host_of
  get_host_by_name host = get_cli_host host >>= λ h. pure (host_of h)
