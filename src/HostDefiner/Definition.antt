-- ===== src/HostDefiner/Definition.antt =====
-- controllers/servers/host_definer/storage_manager/host_definer_server.py: a node defined as a host of an
-- array, its definition updated, and removed. `str(ex)` of an error is the error itself.
use ibm_block_csi_driver.Prelude.{
  Bool, true, false, not, ◌&&◌, ◌||◌, Option, none, some, String, List, [], ◌∷◌, is_empty, truthy?,
  ◌==◌, if◌then◌else◌, split,
}
use ibm_block_csi_driver.Errors.{Exception}
use ibm_block_csi_driver.Outcome.{Outcome, returned, raised}
use ibm_block_csi_driver.Exec.{Exec, pure, raise, when, lift, attempt, try_except, ◌>>=◌, ◌>>◌}
use ibm_block_csi_driver.Requests.Nodes.{
  Initiators, NodeApi, node_name, get_initiators_with_fallback, get_by_connectivity_type,
  get_initiators_connectivity_type, contains_initiators,
}
use ibm_block_csi_driver.Requests.Parameters.{join_object_prefix_with_name}
use ibm_block_csi_driver.HostDefiner.{DefineHostRequest, HostMediator, HostArrays}
use ibm_block_csi_driver.HostDefiner.Ports.{
  get_ports_to_remove, get_ports_to_add, are_initiators_equal,
  create_initiators_for_connectivity_type, is_protocol_switched, get_host_protocol,
  get_io_group_to_modify,
}

-- `DefineHostResponse`: what went wrong, or the host as the array has it
pub data Failure : Type 0 where
  error : Exception → Failure
  host_found_with_different_initiators failed_to_get_secret : Failure

pub record DefineHostResponse : Type 0 where
  pub failure : Option Failure
  pub connectivity_type : Option String
  pub ports : List String
  pub node_name_on_storage : String
  pub io_group : List String
  pub management_address : String

abbrev pub empty_response : DefineHostResponse
empty_response = record {
  failure = none;
  connectivity_type = none;
  ports = [];
  node_name_on_storage = "";
  io_group = [];
  management_address = "";
}

abbrev pub failed : Failure → DefineHostResponse
failed f = record empty_response { failure = some f }

module _ (api : NodeApi) (request : DefineHostRequest) where
  -- `get_initiators_from_csi_node`, and the connectivity type chosen for them
  unfoldable pub node_initiators : Initiators
  unfolding get_initiators_with_fallback
  node_initiators =
      get_initiators_with_fallback api request.node_initiators_from_csi_node
        request.node_id_from_csi_node

  unfoldable pub requested_type : Option String
  unfolding node_initiators get_initiators_connectivity_type
  requested_type =
      get_initiators_connectivity_type node_initiators request.connectivity_type_from_user

  -- `_is_port_update_needed_when_same_protocol`
  same_type : Option String → Option String → Bool
  same_type none none = true
  same_type (some a) (some b) = a == b
  same_type _ _ = false

  unfoldable pub is_port_update_needed : Option String → Bool
  unfolding same_type requested_type are_initiators_equal
  is_port_update_needed from_host =
      not (same_type requested_type from_host)
      || not (request.node_id_from_csi_node == request.node_id_from_host_definition)
      || not (
          are_initiators_equal api request.node_initiators_from_csi_node
            request.node_initiators_from_host_definition request.connectivity_type_from_user)

  module _ {S : Type 0} (m : HostMediator S) where
    -- `_create_host`
    unfoldable pub create_host : String → Exec S (Unit {0})
    unfolding node_initiators requested_type
    create_host host = do
      let info = request.array_connection_info
      m.create_host host node_initiators requested_type request.io_group info.partition_name
          info.port_set
      when (not (truthy? info.partition_name))
          (m.add_ports_to_host host node_initiators requested_type)

    -- `_remove_host_ports`
    unfoldable pub remove_host_ports : String → List String → Option String → Exec S (Unit {0})
    remove_host_ports host ports t =
        when (truthy? t && not (is_empty ports)) (m.remove_ports_from_host host ports t)

    -- `_change_host_protocol_with_chhost`
    unfoldable pub change_host_protocol_with_chhost : String → Option String → Exec S (Unit {0})
    unfolding remove_host_ports requested_type node_initiators get_host_protocol
    change_host_protocol_with_chhost host existing_type = do
      ports ← m.get_host_connectivity_ports host existing_type
      remove_host_ports host ports existing_type
      m.change_host_protocol host (get_host_protocol requested_type)
      m.add_ports_to_host host node_initiators requested_type

    -- The way out of a failed update: the host is deleted and created anew.
    unfoldable pub recreate : String → Exec S (Unit {0})
    unfolding create_host
    recreate host = m.delete_host host >> create_host host

    -- `_change_host_protocol`
    unfoldable pub change_host_protocol : String → Option String → Exec S (Unit {0})
    unfolding change_host_protocol_with_chhost recreate
    change_host_protocol host existing_type =
        try_except (change_host_protocol_with_chhost host existing_type) (λ _. recreate host)

    -- The body of the `try` in `_update_host_ports`, behind its two lists of ports
    unfoldable pub modify_ports :
        String
        → Option String
        → Option String
        → Option (List String)
        → List String
        → Exec S (Unit {0})
    modify_ports host existing_type requested new existing = do
      let to_remove = get_ports_to_remove existing new
      to_add ← lift (get_ports_to_add new existing)
      when (not (is_empty to_remove)) (remove_host_ports host to_remove existing_type)
      when (not (is_empty to_add)) (
          m.add_ports_to_host host (create_initiators_for_connectivity_type to_add requested)
            requested)

    -- `initiators.get_by_connectivity_type(requested_connectivity_type)`
    abbrev pub ports_of_type : Option String → Option (List String)
    ports_of_type none = none
    ports_of_type (some t) = get_by_connectivity_type node_initiators t

    unfoldable pub replace_ports : String → Option String → Exec S (Unit {0})
    replace_ports host existing_type =
        m.get_host_connectivity_ports host existing_type
        >>= modify_ports host existing_type requested_type (ports_of_type requested_type)

    -- `_update_host_ports`
    unfoldable pub update_host_ports : String → Exec S (Unit {0})
    unfolding change_host_protocol replace_ports recreate is_port_update_needed is_protocol_switched
        requested_type
    update_host_ports host = m.get_host_connectivity_type host >>= λ existing_type.
        if is_protocol_switched requested_type existing_type
        then change_host_protocol host existing_type
        else if is_port_update_needed existing_type
        then try_except (replace_ports host existing_type) (λ ex.
          if truthy? request.array_connection_info.partition_name then recreate host else raise ex)
        else pure tt

    -- `_update_host_io_group`
    unfoldable pub update_host_io_group : String → Exec S (Unit {0})
    unfolding get_io_group_to_modify
    update_host_io_group host = do
      from_host ← m.get_host_io_group host
      let change = get_io_group_to_modify from_host request.io_group
      m.remove_io_group_from_host host change.0
      m.add_io_group_to_host host change.1

    -- `_update_host_partition`: a host in another partition is deleted, to be created anew.
    unfoldable pub update_host_partition : String → Exec S (Unit {0})
    update_host_partition host = do
      fits ← m.verify_host_partition host request.array_connection_info.partition_name
      when (not fits) (m.delete_host host >> raise Exception.host_not_found)

    -- The host that the array has for the node, brought up to date
    unfoldable pub update_host : Exec S String
    unfolding update_host_partition update_host_ports update_host_io_group
        get_initiators_with_fallback
    update_host = do
      found ← m.get_host_by_host_identifiers (
          get_initiators_with_fallback api request.node_initiators_from_host_definition
            request.node_id_from_host_definition)
      update_host_partition found.0
      update_host_ports found.0
      when (not (truthy? request.array_connection_info.partition_name))
          (update_host_io_group found.0)
      pure found.0

    -- `_validate_host`: a host that is there already serves if its initiators are the node's; none where they are not.
    unfoldable pub existing_host : String → Exec S (Option String)
    unfolding node_initiators
    existing_host name = m.get_host_by_name name >>= λ host.
        pure (if contains_initiators node_initiators host.initiators then some host.name else none)

    abbrev or_existing : String → Exception → Exec S (Option String)
    unfolding existing_host
    or_existing name Exception.host_already_exists = existing_host name
    or_existing name e = raise e

    unfoldable pub create_or_take : String → Exec S (Option String)
    unfolding create_host existing_host
    create_or_take name = try_except (create_host name >> pure (some name)) (or_existing name)

    abbrev or_create : String → Exception → Exec S (Option String)
    or_create name Exception.host_not_found = create_or_take name
    or_create name e = raise e

    -- The name of the host that the node is defined as; none where another host has the name.
    unfoldable pub settle_host : String → Exec S (Option String)
    unfolding update_host create_or_take
    settle_host name = try_except (update_host >>= λ found. pure (some found)) (or_create name)

    ids : Option (List String) → Outcome (List String)
    ids none = raised Exception.attribute_error
    ids (some groups) = returned groups

    io_group_ids : String → Exec S (List String)
    unfolding ids
    io_group_ids host = m.get_host_io_group host >>= λ groups. lift (ids groups)

    -- `_generate_response`, for the first of the array's addresses; the io groups stay texts.
    unfoldable pub generate_response : String → String → Exec S DefineHostResponse
    unfolding io_group_ids requested_type split
    generate_response host address = do
      ports ← m.get_host_connectivity_ports host requested_type
      io_groups ←
          if truthy? request.array_connection_info.partition_name
          then pure (split ":" "0:1:2:3")
          else io_group_ids host
      pure (record {
        failure = none;
        connectivity_type = requested_type;
        ports = ports;
        node_name_on_storage = host;
        io_group = io_groups;
        management_address = address;
      })

    abbrev first_address : List String → Outcome String
    first_address [] = raised Exception.index_error
    first_address (a ∷ more) = returned a

    unfoldable pub define_body : String → Exec S DefineHostResponse
    unfolding settle_host generate_response
    define_body name = settle_host name >>= λ host. elim host [
      | none ↦ pure (failed host_found_with_different_initiators)
      | some h ↦
          lift (first_address request.array_connection_info.array_addresses) >>= generate_response h
    ]

    abbrev or_missing : Exception → Exec S (Unit {0})
    or_missing Exception.host_not_found = pure tt
    or_missing e = raise e

    unfoldable pub undefine_body : Exec S DefineHostResponse
    unfolding node_initiators
    undefine_body = do
      try_except (m.get_host_by_host_identifiers node_initiators >>= λ found. m.delete_host found.0)
          or_missing
      pure empty_response

  module _ {S : Type 0} (arrays : HostArrays S) where
    -- `with get_agent(array_connection_info, array_type).get_mediator() as array_mediator:`
    unfoldable pub with_mediator :
        (HostMediator S → Exec S DefineHostResponse) → Exec S DefineHostResponse
    with_mediator body = do
      array_type ← arrays.detect_array_type request.array_connection_info.array_addresses
      lent ← arrays.get_mediator request.array_connection_info array_type
      r ← attempt (body lent.0)
      lent.1
      lift r

    -- `except Exception as ex: return DefineHostResponse(error_message=str(ex))`
    unfoldable pub answered : Exec S DefineHostResponse → Exec S DefineHostResponse
    answered m = try_except m (λ ex. pure (failed (error ex)))

    -- The host's name on the array, before an existing one is found
    abbrev pub new_host_name : String
    new_host_name =
        join_object_prefix_with_name (some request.prefix) (node_name request.node_id_from_csi_node)

    -- `define_host` and `undefine_host`
    unfoldable pub define_host : Exec S DefineHostResponse
    unfolding answered with_mediator define_body
    define_host = answered (with_mediator (λ m. define_body m new_host_name))

    unfoldable pub undefine_host : Exec S DefineHostResponse
    unfolding answered with_mediator undefine_body
    undefine_host = answered (with_mediator undefine_body)
