-- ===== src/Arrays/Svc/HostCommands.antt =====
-- controllers/array_action/array_mediator_svc.py: the commands that define hosts, their ports and their
-- io groups. The argument `port_set_default` is the environment variable PORT_SET.
use ibm_block_csi_driver.Prelude.{
  Bool, true, false, ◌&&◌, ◌||◌, Option, String, List, [], ◌∷◌, is_empty, join, truthy, truthy?,
  nat_eq, ◌==◌, if◌then◌else◌,
}
use ibm_block_csi_driver.Errors.{Exception}
use ibm_block_csi_driver.Outcome.{returned}
use ibm_block_csi_driver.Exec.{Exec, pure, raise, raise_if, when, lift, ◌>>=◌, ◌>>◌}
use ibm_block_csi_driver.Requests.Nodes.{Initiators, get_connectivity_type_ports, fibre_channel}
use ibm_block_csi_driver.Arrays.Svc.{
  text, SvcClient, has, has_any, except_cli, unless_warning, reraise,
}
use ibm_block_csi_driver.Arrays.Svc.HostQueries.{get_cli_host}
use ibm_block_csi_driver.Arrays.Svc.Kwargs.{
  build_create_host_kwargs, build_host_port_command_kwargs, build_change_host_protocol_kwargs,
}

-- `_is_port_invalid`
unfoldable pub is_port_invalid : String → Bool
is_port_invalid message = has_any message ("CMMVC5867E" ∷ "CMMVC6578E" ∷ "CMMVC9328E" ∷ [])

module _ {S : Type 0} (client : SvcClient S) where
  -- A raise of the message that first asks whether it is a warning
  abbrev warn_and_raise : {A : Type 0} → String → Exec S A
  warn_and_raise message =
      unless_warning (returned tt) (λ _. pure (returned tt)) message >>= λ _. reraise message

  -- `_mkhost`: true for the status 200, false for 400
  unfoldable pub mkhost_error : String → Exec S Bool
  unfolding is_port_invalid
  mkhost_error message =
      if has message "CMMVC5729E"
      then raise Exception.io_group_is_invalid
      else if has message "CMMVC6035E"
      then raise Exception.host_already_exists
      else if is_port_invalid message
          || has_any message ("CMMVC9699E" ∷ "CMMVC5703E" ∷ "CMMVC5868E" ∷ [])
      then pure false
      else warn_and_raise message

  module _ (port_set_default : Option String) where
    unfoldable pub mkhost :
        String → String → Option String → Option String → Option String → String → Exec S Bool
    unfolding build_create_host_kwargs mkhost_error
    mkhost host connectivity_type io_group partition port_set port = do
      kwargs ← lift (
          build_create_host_kwargs host connectivity_type port io_group partition port_set
            port_set_default)
      except_cli (client.svctask "mkhost" kwargs >> pure true) mkhost_error

    -- `_rmhost`
    unfoldable pub rmhost : String → Exec S (Unit {0})
    rmhost host =
        except_cli (client.svctask "rmhost" (("object_id", text host) ∷ []))
          (unless_warning tt reraise)

    -- The first loop of `create_host`: the ports that a host of the partition can be made with
    unfoldable pub good_ports : (String → Exec S Bool) → String → List String → Exec S (List String)
    unfolding rmhost
    good_ports make host [] = pure []
    good_ports make host (p ∷ ps) = do
      made ← make p
      when made (rmhost host)
      rest ← good_ports make host ps
      pure (if made then p ∷ rest else rest)

    -- The second loop: the first port that a host can be made with
    unfoldable pub first_valid : (String → Exec S Bool) → List String → Exec S (Unit {0})
    first_valid make [] = raise Exception.no_port_is_valid
    first_valid make (p ∷ ps) =
        make p >>= λ made. elim made [ true ↦ pure tt | false ↦ first_valid make ps ]

    verified : (String → Exec S Bool) → String → String → List String → Exec S (List String)
    unfolding good_ports
    verified make host delimiter ports = do
      good ← good_ports make host ports
      raise_if (is_empty good) Exception.no_port_is_valid
      pure (join delimiter good ∷ [])

    -- `create_host`
    unfoldable pub create_host :
        String
        → Initiators
        → String
        → Option String
        → Option String
        → Option String
        → Exec S (Unit {0})
    unfolding get_connectivity_type_ports mkhost verified first_valid
    create_host host initiators t io_group partition port_set = do
      client.register_plugin "host_definition"
      all_ports ← lift (get_connectivity_type_ports initiators t)
      raise_if (truthy? partition && truthy? io_group)
          Exception.unsupported_parameter_through_partition
      let make = mkhost host t io_group partition port_set
      let delimiter = if t == fibre_channel then ":" else ","
      ports ← if truthy? partition then verified make host delimiter all_ports else pure all_ports
      first_valid make ports

    -- `_raise_error_when_no_ports_added`
    unfoldable pub raise_error_when_no_ports_added : String → Exec S (Unit {0})
    unfolding get_cli_host rmhost
    raise_error_when_no_ports_added host = do
      h ← get_cli_host client host
      when (nat_eq h.port_count 0) (rmhost host >> raise Exception.no_port_is_valid)

    unless_invalid : String → Exec S (Unit {0})
    unless_invalid message = if is_port_invalid message then pure tt else warn_and_raise message

    -- `_addhostport` and `_rmhostport`, by the command
    unfoldable pub host_port_command : String → String → String → String → Exec S (Unit {0})
    unfolding build_host_port_command_kwargs unless_invalid
    host_port_command command host t port = do
      kwargs ← lift (build_host_port_command_kwargs host t port)
      except_cli (client.svctask command kwargs) unless_invalid

    unfoldable pub each_port : String → String → String → List String → Exec S (Unit {0})
    unfolding host_port_command
    each_port command host t [] = pure tt
    each_port command host t (p ∷ ps) =
        host_port_command command host t p >> each_port command host t ps

    -- `add_ports_to_host`, `remove_ports_from_host`
    unfoldable pub add_ports_to_host : String → Initiators → String → Exec S (Unit {0})
    unfolding get_connectivity_type_ports each_port raise_error_when_no_ports_added
    add_ports_to_host host initiators t = do
      client.register_plugin "host_definition"
      ports ← lift (get_connectivity_type_ports initiators t)
      each_port "addhostport" host t ports
      raise_error_when_no_ports_added host

    unfoldable pub remove_ports_from_host : String → List String → String → Exec S (Unit {0})
    unfolding each_port
    remove_ports_from_host host ports t =
        client.register_plugin "host_definition" >> each_port "rmhostport" host t ports

    io_group_error : String → Exec S (Unit {0})
    io_group_error message =
        if has message "CMMVC5754E"
        then raise Exception.host_not_found
        else if has message "CMMVC5729E"
        then raise Exception.io_group_is_invalid
        else unless_warning tt reraise message

    -- `add_io_group_to_host` and `remove_io_group_from_host`, by the command
    unfoldable pub io_group_command : String → String → String → Exec S (Unit {0})
    unfolding io_group_error
    io_group_command command host io_group = when (truthy io_group) (
        except_cli
          (client.svctask command (("object_id", text host) ∷ ("iogrp", text io_group) ∷ []))
          io_group_error)

    chhost_error : String → Exec S (Unit {0})
    chhost_error message =
        if has message "CMMVC5753E"
        then raise Exception.host_not_found
        else if has message "CMMVC5709E"
        then raise Exception.unsupported_parameter
        else if has message "CMMVC9331E"
        then raise Exception.cannot_change_host_protocol
        else warn_and_raise message

    -- `change_host_protocol`: here a warning is raised too.
    unfoldable pub change_host_protocol : String → String → Exec S (Unit {0})
    unfolding chhost_error build_change_host_protocol_kwargs
    change_host_protocol host protocol =
        except_cli (client.svctask "chhost" (build_change_host_protocol_kwargs host protocol))
          chhost_error
