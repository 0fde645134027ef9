-- ===== src/Arrays/Svc/Kwargs.antt =====
-- controllers/array_action/array_mediator_svc.py: the keyword arguments of the commands, and the space
-- efficiencies that a volume's flags stand for.
use ibm_block_csi_driver.Prelude.{
  ℕ, Bool, true, not, ◌||◌, Option, none, some, String, List, [], ◌∷◌, ◌++◌, truthy, truthy?, lower,
  ◌==◌, if◌then◌else◌,
}
use ibm_block_csi_driver.Errors.{Exception}
use ibm_block_csi_driver.Outcome.{Outcome, returned, raised}
use ibm_block_csi_driver.Requests.Nodes.{nvme_over_fc, fibre_channel, iscsi}
use ibm_block_csi_driver.Arrays.Svc.{text, number, flag, CliKwargs, CliVolume}

-- An argument that is given if the text is neither `None` nor empty
abbrev optional : String → Option String → CliKwargs
optional key none = []
optional key (some v) = if truthy v then (key, text v) ∷ [] else []

abbrev known_space_efficiency : String → CliKwargs
known_space_efficiency s =
    if s == "thin"
    then ("thin", flag true) ∷ []
    else if s == "compressed"
    then ("compressed", flag true) ∷ []
    else if s == "dedup_thin"
    then ("deduplicated", flag true) ∷ ("thin", flag true) ∷ []
    else if s == "deduplicated" || s == "dedup_compressed"
    then ("deduplicated", flag true) ∷ ("compressed", flag true) ∷ []
    else []

-- `_get_space_efficiency_kwargs`
unfoldable pub get_space_efficiency_kwargs : Option String → CliKwargs
unfolding lower
get_space_efficiency_kwargs none = []
get_space_efficiency_kwargs (some s) = if truthy s then known_space_efficiency (lower s) else []

unfoldable pub build_create_volume_in_volume_group_kwargs :
    String → Option String → String → CliKwargs
build_create_volume_in_volume_group_kwargs pool io_group source_id =
    ("type", text "clone")
    ∷ ("fromsnapshotid", text source_id)
    ∷ ("pool", text pool)
    ∷ optional "iogroup" io_group

-- `_add_port_to_command_kwargs`
unfoldable pub add_port_to_command_kwargs : String → String → CliKwargs → Outcome CliKwargs
add_port_to_command_kwargs connectivity_type port kwargs =
    if connectivity_type == nvme_over_fc
    then returned (kwargs ++ ("nqn", text port) ∷ [])
    else if connectivity_type == fibre_channel
    then returned (kwargs ++ ("fcwwpn", text port) ∷ [])
    else if connectivity_type == iscsi
    then returned (kwargs ++ ("iscsiname", text port) ∷ [])
    else raised Exception.unsupported_connectivity_type

abbrev io_group_kwargs : Option String → Option String → CliKwargs
io_group_kwargs io_group partition_name =
    if truthy? io_group
    then optional "iogrp" io_group
    else if truthy? partition_name
    then []
    else ("iogrp", text "0:1:2:3") ∷ []

abbrev port_set_kwargs : Option String → Option String → CliKwargs
port_set_kwargs port_set from_environment =
    optional "portset" (if truthy? port_set then port_set else from_environment)

abbrev protocol_kwargs : String → CliKwargs
protocol_kwargs connectivity_type =
    if connectivity_type == nvme_over_fc then ("protocol", text "fcnvme") ∷ [] else []

-- `build_create_host_kwargs`; the last argument is the environment variable PORT_SET.
unfoldable pub build_create_host_kwargs :
    String
    → String
    → String
    → Option String
    → Option String
    → Option String
    → Option String
    → Outcome CliKwargs
unfolding add_port_to_command_kwargs
build_create_host_kwargs host_name connectivity_type port io_group partition_name port_set default =
    elim (add_port_to_command_kwargs connectivity_type port (("name", text host_name) ∷ [])) [
      | raised e ↦ raised e
      | returned kwargs ↦ returned (
          kwargs
          ++ (protocol_kwargs connectivity_type
              ++ (io_group_kwargs io_group partition_name
                  ++ (port_set_kwargs port_set default ++ optional "partition" partition_name))))
    ]

unfoldable pub build_host_port_command_kwargs : String → String → String → Outcome CliKwargs
unfolding add_port_to_command_kwargs
build_host_port_command_kwargs host_name connectivity_type port =
    add_port_to_command_kwargs connectivity_type port (("host_name", text host_name) ∷ [])

unfoldable pub build_kwargs_from_parameters :
    Option String → String → Option String → Option String → String → ℕ → CliKwargs
unfolding get_space_efficiency_kwargs
build_kwargs_from_parameters space_efficiency pool io_group volume_group name size =
    ("name", text name)
    ∷ ("unit", text "b")
    ∷ ("size", number size)
    ∷ ("pool", text pool)
    ∷ (get_space_efficiency_kwargs space_efficiency
        ++ (optional "iogrp" io_group ++ optional "volumegroup" volume_group))

unfoldable pub build_create_replication_kwargs : String → String → String → String → CliKwargs
build_create_replication_kwargs master aux other_system_id copy_type =
    ("master", text master)
    ∷ ("aux", text aux)
    ∷ ("cluster", text other_system_id)
    ∷ (if copy_type == "async" then ("global", flag true) ∷ [] else [])

unfoldable pub build_start_replication_kwargs : String → Option String → Bool → CliKwargs
build_start_replication_kwargs rcrelationship_id primary force =
    ("object_id", text rcrelationship_id)
    ∷ (optional "primary" primary ++ (if force then ("force", flag true) ∷ [] else []))

unfoldable pub build_stop_replication_kwargs : String → Bool → CliKwargs
build_stop_replication_kwargs rcrelationship_id add_access =
    ("object_id", text rcrelationship_id) ∷ (if add_access then ("access", flag true) ∷ [] else [])

unfoldable pub build_change_host_protocol_kwargs : String → String → CliKwargs
build_change_host_protocol_kwargs host_name protocol =
    ("object_id", text host_name) ∷ ("protocol", text protocol) ∷ []

unfoldable pub build_register_plugin_kwargs : String → Option String → String → CliKwargs
build_register_plugin_kwargs unique_key metadata version =
    ("uniquekey", text unique_key) ∷ ("version", text version) ∷ optional "metadata" metadata

abbrev without_deduplication : CliVolume → List String
without_deduplication v =
    if v.compressed_copy == "yes"
    then "compressed" ∷ []
    else if v.se_copy == "yes"
    then "thin" ∷ []
    else "thick" ∷ "" ∷ []

-- `_get_cli_volume_space_efficiency_aliases`: a later test overrides an earlier one.
unfoldable pub get_cli_volume_space_efficiency_aliases : CliVolume → List String
get_cli_volume_space_efficiency_aliases v = elim v.deduplicated_copy [
  | none ↦ without_deduplication v
  | some d ↦
      if not (d == "yes")
      then without_deduplication v
      else if v.se_copy == "yes"
      then "dedup_thin" ∷ []
      else "dedup_compressed" ∷ "deduplicated" ∷ []
]
