-- ===== src/Requests/Secrets/Connection.antt =====
-- What validated secrets give: connection info, of the right storage system.
use ibm_block_csi_driver.Prelude.{
  ◌≡◌, refl, true, false, Option, none, some, String, List, [], ◌∷◌, ◌++◌, Dict, split, lower,
  lookup, lookup_or, truthy, All, arith, Option-cases, inl, inr, ◌==◌,
}
use ibm_block_csi_driver.Errors.{Exception}
use ibm_block_csi_driver.Outcome.{returned, raised, for_each}
use ibm_block_csi_driver.Requests.Secrets.{
  SystemInfo, ArrayConnectionInfo, is_topology_match, get_system_info_for_topologies,
  connection_info, validate_connection_info, validate_topologies, validate_system,
  validate_secrets_config, get_array_connection_info_from_secrets, validate_secrets,
}

-- The info that a system's fields hold: every required field is there and is what the info says.
pub record IsInfoOf (fields : Dict String) (info : ArrayConnectionInfo) : Type 0 where
  pub user : lookup "username" fields ≡ some info.user
  pub password : lookup "password" fields ≡ some info.password

-- Fields that passed the validation give the info that they hold.
connection_info-validated :
    (info : SystemInfo) (id : Option String)
    → validate_connection_info info.fields ≡ returned tt
    → (conn : ArrayConnectionInfo) × (connection_info (some info) id ≡ returned conn)
      × IsInfoOf info.fields conn
      × (conn.system_id ≡ id)
unfolding validate_connection_info connection_info
connection_info-validated info id h = elim (Option-cases (lookup "username" info.fields)) [
  | inl e ↦ absurd (ground arith)
  | inr (u, eu) ↦ elim (Option-cases (lookup "password" info.fields)) [
    | inl e ↦ absurd (ground arith)
    | inr (p, ep) ↦ elim (Option-cases (lookup "management_address" info.fields)) [
      | inl e ↦ absurd (ground arith)
      | inr (a, ea) ↦ (
        record {
          array_addresses = split "," a;
          user = u;
          password = p;
          system_id = id;
          partition_name = lookup "partition_name" info.fields;
          partition_vg = lookup "partition_default_vg" info.fields;
          port_set = lookup "port_set" info.fields;
          verify_ssl = lower (lookup_or "verify_ssl" "false" info.fields) == "true";
        },
        ground arith,
        record { user = eu; password = ep },
        refl,
      )
    ]
  ]
]

validate_system-valid :
    (e : String × SystemInfo)
    → validate_system e ≡ returned tt
    → (validate_connection_info e.1.fields ≡ returned tt)
      × (validate_topologies e.1.supported_topologies ≡ returned tt)
unfolding validate_system
validate_system-valid (id, info) h = ground arith

-- Every system of a validated config has passed its own validation.
lookup-validated :
    (config : Dict SystemInfo) (id : String) (info : SystemInfo)
    → validate_secrets_config config ≡ returned tt
    → lookup id config ≡ some info
    → validate_connection_info info.fields ≡ returned tt
unfolding validate_secrets_config for_each
lookup-validated [] id info v e = cc
lookup-validated ((j, x) ∷ rest) id info v e =
    ground (arith, validate_system-valid (j, x), lookup-validated rest id info)

validated-append :
    (before : Dict SystemInfo) (id : String) (info : SystemInfo) (later : Dict SystemInfo)
    → validate_secrets_config (before ++ (id, info) ∷ later) ≡ returned tt
    → validate_connection_info info.fields ≡ returned tt
unfolding validate_secrets_config for_each
validated-append [] id info later v = ground (arith, validate_system-valid (id, info))
validated-append (b ∷ before) id info later v =
    ground (arith, validated-append before id info later)

module _ (loads : String → Option (Dict SystemInfo)) (secrets : Dict String)
    (valid : validate_secrets loads secrets ≡ returned tt) where
  -- Secrets with no config that passed the validation give their own connection info, with the
  -- system id that was asked for, whatever the topologies.
  connection-no_config :
      (topologies : Option (Dict String)) (system_id : Option String)
      → truthy (lookup_or "config" "" secrets) ≡ false
      → (conn : ArrayConnectionInfo) × (get_array_connection_info_from_secrets loads secrets
            topologies system_id
          ≡ returned conn)
        × IsInfoOf secrets conn
        × (conn.system_id ≡ system_id)
  unfolding get_array_connection_info_from_secrets validate_secrets
  connection-no_config topologies system_id h =
      let v : validate_connection_info secrets ≡ returned tt = ground arith in
      let (conn, e, i, n) =
        connection_info-validated (record { fields = secrets; supported_topologies = none })
          system_id v in
      (conn, ground (arith, e), i, n)

  -- With a config that passed the validation, the system that a volume id names gives its own
  -- connection info; a system that the config no longer holds is a `TypeError`.
  connection-named_system :
      (topologies : Option (Dict String)) (config : Dict SystemInfo) (id : String)
      (info : SystemInfo)
      → truthy (lookup_or "config" "" secrets) ≡ true
      → loads (lookup_or "config" "" secrets) ≡ some config
      → truthy id ≡ true
      → lookup id config ≡ some info
      → (conn : ArrayConnectionInfo) × (get_array_connection_info_from_secrets loads secrets
            topologies
            (some id)
          ≡ returned conn)
        × IsInfoOf info.fields conn
        × (conn.system_id ≡ some id)
  unfolding get_array_connection_info_from_secrets validate_secrets
  connection-named_system topologies config id info h l t e =
      let v : validate_secrets_config config ≡ returned tt = ground arith in
      let (conn, c, i, n) =
        connection_info-validated info (some id) (lookup-validated config id info v e) in
      (conn, ground arith, i, n)

-- A system whose topologies are not among those requested.
abbrev Unmatched : Dict String → String × SystemInfo → Type 0
Unmatched node e =
    (ts : List (Dict String)) × (e.1.supported_topologies ≡ some ts)
    × (is_topology_match ts node ≡ false)

first_match :
    (node : Dict String) (before : Dict SystemInfo) (id : String) (info : SystemInfo)
    (ts : List (Dict String)) (later : Dict SystemInfo)
    → All (Unmatched node) before
    → info.supported_topologies ≡ some ts
    → is_topology_match ts node ≡ true
    → get_system_info_for_topologies (before ++ (id, info) ∷ later) node ≡ returned (info, id)
unfolding get_system_info_for_topologies
first_match node [] id info ts later h e m = ground arith
first_match node (b ∷ before) id info ts later h e m =
    let (us, eu, mu) = h.0 in ground (arith, first_match node before id info ts later h.1 e m)

-- Where a volume's topologies choose among the systems of a validated config, the first system in
-- the config's order that supports them is taken: its id and its own connection info.
connection-by_topologies :
    (loads : String → Option (Dict SystemInfo)) (secrets : Dict String) (t : String × String)
    (ts : Dict String) (before : Dict SystemInfo) (id : String) (info : SystemInfo)
    (supported : List (Dict String)) (later : Dict SystemInfo)
    → validate_secrets loads secrets ≡ returned tt
    → truthy (lookup_or "config" "" secrets) ≡ true
    → loads (lookup_or "config" "" secrets) ≡ some (before ++ (id, info) ∷ later)
    → All (Unmatched (t ∷ ts)) before
    → info.supported_topologies ≡ some supported
    → is_topology_match supported (t ∷ ts) ≡ true
    → (conn : ArrayConnectionInfo) × (get_array_connection_info_from_secrets loads secrets
          (some (t ∷ ts))
          none
        ≡ returned conn)
      × IsInfoOf info.fields conn
      × (conn.system_id ≡ some id)
unfolding get_array_connection_info_from_secrets validate_secrets
connection-by_topologies loads secrets t ts before id info supported later v h l b e m =
    let w : validate_secrets_config (before ++ (id, info) ∷ later) ≡ returned tt = ground arith in
    let (conn, c, i, n) =
      connection_info-validated info (some id) (validated-append before id info later w) in
    (conn, ground (arith, first_match (t ∷ ts) before id info supported later b e m), i, n)

-- A volume id whose system is no longer in the config is not refused with a message: looking its
-- fields up raises `TypeError`, which the servers answer as an internal error.
connection-unknown_system :
    (loads : String → Option (Dict SystemInfo)) (secrets : Dict String)
    (topologies : Option (Dict String)) (config : Dict SystemInfo) (id : String)
    → truthy (lookup_or "config" "" secrets) ≡ true
    → loads (lookup_or "config" "" secrets) ≡ some config
    → truthy id ≡ true
    → lookup id config ≡ none
    → get_array_connection_info_from_secrets loads secrets topologies (some id)
      ≡ raised Exception.type_error
unfolding get_array_connection_info_from_secrets connection_info
connection-unknown_system loads secrets topologies config id h l t e = ground arith
