-- ===== src/Lib.antt =====
-- A model of the controller service of the IBM block storage CSI driver (controllers/), and what is
-- proved about it.
--
-- The driver is a gRPC server between Kubernetes and storage arrays. An RPC of the controller service
-- (controllers/servers/csi/csi_controller_server.py) runs inside `csi_method`, which locks the object
-- that it is about and answers exceptions with a status code. The handler validates the request, reads
-- the array's connection out of the secrets and the ids, borrows a mediator for the array from a pool of
-- connections, calls the mediator and makes a reply.
--
-- Files and code:
--   Prelude: shared names, tests, lists, texts (split, join, strip, lower), dicts, integers;
--     Digits: numbers written and read as texts; the signs, spaces, underscores and `0x` that `int` reads
--     too are a ValueError.
--   Errors: controllers/array_action/errors.py, controllers/servers/errors.py and messages.py.
--   Outcome, Exec: Python calls that may raise, without and with a state. What was written before a
--     raise stays written.
--   Requests: the pure part of controllers/servers/utils.py, controllers/common/node_info.py and
--     controllers/servers/csi/controller_types.py. Ids: object ids. Secrets: systems, connection info.
--     Nodes: initiators. Parameters: storage class parameters and names. Messages: the requests.
--     Validation: the validators.
--   Arrays.Pool: controllers/array_action/array_connection_pool.py; `get` and `put` in their atomic
--     parts, and Pool.Interleaving as steps that threads mix.
--   Arrays.Mediator: array_mediator_interface.py and array_action_types.py of controllers/array_action,
--     as a record of operations over any state. Arrays.Mapping: controllers/array_action/
--     array_mediator_abstract.py. Arrays.Nguid: controllers/array_action/utils.py.
--   Arrays.Agents: controllers/array_action/storage_agent.py. Detection: the type of an array and its
--     cache. Table: which agent serves a request. Loans: a connection borrowed and given back.
--   Arrays.VolumeCache: controllers/array_action/ds8k_volume_cache.py, and in Refinement the map that it
--     stands for.
--   Arrays.Svc: controllers/array_action/array_mediator_svc.py, over a record of the commands of the
--     package pysvc. Kwargs: arguments of commands. Volumes and Sizes: volumes created, enlarged, removed.
--     Copies and Deletion: FlashCopy mappings, snapshots by copy and their rollback. Hosts and Luns:
--     volumes mapped at LUNs. HostQueries and HostCommands: hosts asked for, defined and changed.
--     HostSearch and Scan: the host of some initiators. VolumeGroups and Grouping: groups of volumes.
--     VolumeSnapshots: snapshot objects. Clones, Creation and Rollback: volumes created, from a source
--     too. Objects: snapshots made, and objects found by their ids. Relationships and Promotion: remote
--     copies and their primary end.
--   Arrays.Ds8k: controllers/array_action/array_mediator_ds8k.py, over a record of the calls of the package
--     pyds8k. Volumes: volumes found, through the cache too, created, enlarged, deleted. Snapshots:
--     FlashCopy relationships. Hosts: mappings and hosts. Luns: the two conversions of a LUN, in
--     controllers/array_action/ds8k_rest_client.py. Lookup, Deletion, Identifiers: theorems.
--   Arrays.Xiv: controllers/array_action/array_mediator_xiv.py, over a record of the commands of the package
--     pyxcli. Volumes: volumes and snapshots. Hosts: LUNs, mappings and hosts, with string_to_array of
--     controllers/common/utils.py. Kinds, Luns, Search: theorems.
--   Csi.Status: controllers/servers/csi/exception_handler.py.
--   Csi.Lock: controllers/servers/csi/sync_lock.py and controllers/servers/csi/decorators.py.
--   Csi.Responses: the bodies of replies and the checks against a volume, of
--     controllers/servers/utils.py.
--   Csi.Session: what a handler reaches, and the `with` around a mediator. Csi.Controller: the handlers,
--     in CreateVolume, Volumes, Publishing and Snapshots, with the theorems in the files beside them.
--   Csi.VolumeGroups, Csi.GroupMembers: controllers/servers/csi/volume_group_server.py.
--   Csi.Replication: controllers/servers/csi/addons_server.py; its requests are in Requests.Addons.
--   HostDefiner: controllers/servers/host_definer/storage_manager/host_definer_server.py, which defines a
--     node as a host of an array. Ports and Difference: what is removed from a host and added to it.
--     Definition and Outcomes: the service, and what it answers and leaves. Under
--     controllers/servers/host_definer/watcher: Secrets, Matching and Counts, the managed secrets of
--     watcher_helper.py and storage_class_watcher.py; Watcher, what becomes of a definition; Pending and
--     Backoff, the thread of a pending definition in host_definition_watcher.py.
--   Examples: the theorems applied to concrete inputs.
--
-- State is passed explicitly: a handler is a function from the state of the arrays to an outcome and a
-- new state; `Process` adds the table of locks. A class tree of exceptions is one data type, and each
-- `except` a function by cases. Texts of messages and log lines are left out; a formatted message is the
-- name of its format. A message field that the code tests for truth is an `Option`.
--
-- What is not under controllers/ is an argument with its documented behaviour: `json.loads`, the
-- hash of a name, the Kubernetes nodes, the `retry` decorator (a record of its laws), creating a
-- connection and asking whether it is active, whether an endpoint answers on a port, the commands
-- of pysvc and pyxcli, the calls of pyds8k, the comparison of versions, what `random` draws, and
-- the arrays behind a mediator. Mediators inherit `map_volume_by_initiators` and the copy with its
-- rollback; the SolidFire mediator's own version of the mapping is not modelled.
--
-- The call `get` of a pool is the whole of it, with nothing between its parts: where the source
-- waits for a connection without a timeout, the model ends the wait with Empty, as a timeout does.
-- Pool.Interleaving has the parts as steps of several threads.
--
-- Every loop runs over a list or over a number of tries that the code bounds (the mediator's LUN
-- retries; the tries of `retry`; the five passes over a pending definition), except that writing a
-- number as digits has the number itself as fuel: each step divides by the base. Numbers are
-- unbounded, as Python's are.
--
-- Not modelled: of the SVC mediator, targets, EAR replication and what the registration of the
-- plugin sends (an argument of the calls that register it); the SANtricity and SolidFire mediators
-- and the clients of the arrays; the watchers of nodes, CSI nodes and secrets of host_definer, the
-- creation of definitions and the calls of the Kubernetes API; the node service in Go, call-home
-- metadata, logging and the start of the server.
pub mod Prelude
pub mod Errors
pub mod Outcome
pub mod Exec
pub mod Requests
pub mod Arrays
pub mod Csi
pub mod HostDefiner
pub mod Examples
