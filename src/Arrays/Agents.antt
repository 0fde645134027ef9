-- ===== src/Arrays/Agents.antt =====
-- controllers/array_action/storage_agent.py: the detection of an array's type, the agents of the arrays,
-- and the mediators that they lend. What the network answers, and what making a connection does, is the
-- environment's: an argument. The table keeps the identity of an agent, since a caller goes on using
-- one that the table has lost.
pub mod Detection
pub mod Table
pub mod Loans
use ibm_block_csi_driver.Prelude.{
  ℕ, zero, suc, Bool, true, false, ◌&&◌, Option, none, some, String, List, [], ◌∷◌, ◌++◌, Dict,
  lookup, insert, join, length, truthy, min, nat_eq, ◌==◌, ◌||◌, if◌then◌else◌,
}
use ibm_block_csi_driver.Errors.{Exception}
use ibm_block_csi_driver.Outcome.{Outcome, returned, raised}
use ibm_block_csi_driver.Exec.{Exec, pure, raise, lift, ◌>>=◌, ◌>>◌}
use ibm_block_csi_driver.Requests.Secrets.{ArrayConnectionInfo}
use ibm_block_csi_driver.Arrays.Pool.{Pool, new, fill, get, put}

-- `array_type_to_port`, in its order; the SVC's port is an environment variable's.
abbrev pub array_type_to_port : ℕ → List (String × List ℕ)
array_type_to_port ssh_port =
    ("SANtricity", 8443 ∷ 8443 ∷ [])
    ∷ ("A9000", 7778 ∷ [])
    ∷ ("DS8K", 8452 ∷ [])
    ∷ ("SolidFire", 443 ∷ [])
    ∷ ("SVC", ssh_port ∷ [])
    ∷ []

-- `array_type_to_mediator[array_type]`, by the number of connections that the mediator allows
unfoldable pub max_connections : String → Outcome ℕ
max_connections t =
    if t == "A9000" || t == "SVC" || t == "SolidFire"
    then returned 2
    else if t == "DS8K"
    then returned 50
    else if t == "SANtricity"
    then returned 5
    else raised Exception.key_error

-- `_get_array_type_from_cache`
unfoldable pub get_array_type_from_cache : List String → Dict String → Option String
get_array_type_from_cache [] cache = none
get_array_type_from_cache (e ∷ es) cache =
    let others = get_array_type_from_cache es cache in
    elim (lookup e cache) [ none ↦ others | some t ↦ if truthy t then some t else others ]

module _ (answers : String → ℕ → Bool) where
  -- The three loops of `detect_array_type`: the first endpoint that answers
  unfoldable pub first_endpoint : ℕ → List String → Option String
  first_endpoint port [] = none
  first_endpoint port (e ∷ es) =
      let others = first_endpoint port es in if answers e port then some e else others

  unfoldable pub first_port : List ℕ → List String → Option String
  unfolding first_endpoint
  first_port [] endpoints = none
  first_port (p ∷ ps) endpoints = elim (first_endpoint p endpoints) [
    | none ↦ first_port ps endpoints
    | some e ↦ some e
  ]

  unfoldable pub first_type : List (String × List ℕ) → List String → Option (String × String)
  unfolding first_port
  first_type [] endpoints = none
  first_type ((t, ports) ∷ more) endpoints = elim (first_port ports endpoints) [
    | none ↦ first_type more endpoints
    | some e ↦ some (t, e)
  ]

  abbrev remember : Option (String × String) → Exec (Dict String) String
  remember none cache = (raised Exception.failed_to_find_storage_system_type, cache)
  remember (some (t, e)) cache = (returned t, insert e t cache)

  unfoldable pub detect_array_type :
      List (String × List ℕ) → List String → Exec (Dict String) String
  unfolding get_array_type_from_cache first_type
  detect_array_type types endpoints cache = elim (get_array_type_from_cache endpoints cache) [
    | some t ↦ (returned t, cache)
    | none ↦ remember (first_type types endpoints) cache
  ]

-- The key of an agent in `_array_agents`
pub record AgentKey : Type 0 where
  pub username : String
  pub endpoint_key : String
  pub system_id : Option String

abbrev same_id : Option String → Option String → Bool
same_id none none = true
same_id (some s) (some t) = s == t
same_id _ _ = false

unfoldable pub same_key : AgentKey → AgentKey → Bool
same_key a b =
    a.username == b.username && a.endpoint_key == b.endpoint_key && same_id a.system_id b.system_id

abbrev pub key_of : ArrayConnectionInfo → AgentKey
key_of info = record {
  username = info.user;
  endpoint_key = join ", " info.array_addresses;
  system_id = info.system_id;
}

-- `StorageAgent`
pub record Agent (Conn : Type 0) : Type 0 where
  pub password : String
  pub pool : Pool Conn

-- The module's state: the cache of types, the table, and all agents made so far.
pub record Agents (Conn : Type 0) : Type 0 where
  pub cache : Dict String
  pub table : List (AgentKey × ℕ)
  pub made : List (Agent Conn)

module _ {A : Type 0} where
  abbrev pub nth : ℕ → List A → Option A
  nth n [] = none
  nth zero (x ∷ xs) = some x
  nth (suc n) (x ∷ xs) = nth n xs

  unfoldable pub set_nth : ℕ → A → List A → List A
  set_nth n y [] = []
  set_nth zero y (x ∷ xs) = y ∷ xs
  set_nth (suc n) y (x ∷ xs) = x ∷ set_nth n y xs

unfoldable pub find_agent : AgentKey → List (AgentKey × ℕ) → Option ℕ
find_agent k [] = none
find_agent k ((j, i) ∷ table) =
    let others = find_agent k table in if same_key j k then some i else others

unfoldable pub forget_agent : AgentKey → List (AgentKey × ℕ) → List (AgentKey × ℕ)
forget_agent k [] = []
forget_agent k ((j, i) ∷ table) =
    let others = forget_agent k table in if same_key j k then others else (j, i) ∷ others

unfoldable pub with_pool : {Conn : Type 0} → Agents Conn → ℕ → Agent Conn → Pool Conn → Agents Conn
unfolding set_nth
with_pool s i a pool = record s { made = set_nth i (record a { pool = pool }) s.made }

-- `except Empty: raise NoConnectionAvailableException`
abbrev pub refused : Exception → Exception
refused Exception.queue_empty = Exception.no_connection_available
refused e = e

-- `_array_agents[…] = agent`
unfoldable pub enrol : {Conn : Type 0} → ArrayConnectionInfo → Pool Conn → Agents Conn → Agents Conn
enrol info pool s = record s {
  table = (key_of info, length s.made) ∷ s.table;
  made = s.made ++ record { password = info.password; pool = pool } ∷ [];
}

module _ {Conn : Type 0} (active : Conn → Bool)
    (create : ArrayConnectionInfo → String → Outcome Conn) where
  -- The connections of a new pool: `min_size` is 1, and at most as many workers as the server has
  unfoldable pub new_pool : ArrayConnectionInfo → String → Outcome (Pool Conn)
  unfolding max_connections
  new_pool info t = elim (max_connections t) [
    | raised e ↦ raised e
    | returned n ↦
        let (r, pool) = fill active (create info t ∷ []) (new (min n 10)) in
        elim r [ raised e ↦ raised e | returned u ↦ returned pool ]
  ]

  -- `StorageAgent(…)`, and its place in the table
  unfoldable pub make_agent : ArrayConnectionInfo → String → Exec (Agents Conn) ℕ
  unfolding new_pool enrol
  make_agent info t s = elim (new_pool info t) [
    | raised e ↦ (raised e, s)
    | returned pool ↦ (returned (length s.made), enrol info pool s)
  ]

  -- `get_agent`, for a type that is known: an agent with another password leaves the table first.
  unfoldable pub get_agent : ArrayConnectionInfo → String → Exec (Agents Conn) ℕ
  unfolding find_agent forget_agent make_agent
  get_agent info t s =
      let renewed = make_agent info t (record s { table = forget_agent (key_of info) s.table }) in
      elim (find_agent (key_of info) s.table) [
        | none ↦ make_agent info t s
        | some i ↦ elim (nth i s.made) [
          | none ↦ make_agent info t s
          | some a ↦ if a.password == info.password then (returned i, s) else renewed
        ]
      ]

-- The connection that the pool gives, or the refusal, with the pool as `get` leaves it
abbrev pub lent :
    {Conn : Type 0}
    → Agents Conn
    → ℕ
    → Agent Conn
    → Outcome Conn × Pool Conn
    → Outcome Conn × Agents Conn
lent s i a (returned c, pool) = (returned c, with_pool s i a pool)
lent s i a (raised e, pool) = (raised (refused e), with_pool s i a pool)

-- `get_mediator` up to its `yield`. A wait for a connection ends with Empty in `get` of the model, and so
-- here with NoConnectionAvailableException; without a timeout the call of the source does not end there.
unfoldable pub borrow : {Conn : Type 0} → (Conn → Bool) → ℕ → Outcome Conn → Exec (Agents Conn) Conn
borrow active i created s = elim (nth i s.made) [
  | none ↦ (raised Exception.attribute_error, s)
  | some a ↦ lent s i a (get active created a.pool)
]

-- The `finally` of `get_mediator`
unfoldable pub give_back : {Conn : Type 0} → ℕ → Conn → Exec (Agents Conn) (Unit {0})
unfolding with_pool
give_back i c s = elim (nth i s.made) [
  | none ↦ (returned tt, s)
  | some a ↦ (returned tt, with_pool s i a (put c a.pool))
]
