-- ===== src/Requests/Secrets.antt =====
-- The secrets of a request: which storage system they choose, and its connection info. What
-- `json.loads` makes of the text under "config" is the environment's: an argument. Each system's
-- fields are texts, and its supported topologies a list of dicts.
pub mod SystemId
pub mod Connection
use ibm_block_csi_driver.Prelude.{
  ℕ, ◌-◌, Bool, true, false, not, ◌||◌, ◌&&◌, Option, none, some, String, List, [], ◌∷◌, Dict,
  lookup, lookup_or, has_key, split, truthy, truthy?, all, any, is_empty, is_some, lower,
  str_length, leb, ltb, nat_eq, Char, code, ◌==◌, if◌then◌else◌,
}
use ibm_block_csi_driver.Errors.{Exception, Message}
use ibm_block_csi_driver.Outcome.{Outcome, returned, raised, raise_if, for_each, ◌>>=◌, ◌>>◌}

pub record SystemInfo : Type 0 where
  pub fields : Dict String
  pub supported_topologies : Option (List (Dict String))

abbrev of_secrets : Dict String → SystemInfo
of_secrets secrets = record { fields = secrets; supported_topologies = none }

pub record ArrayConnectionInfo : Type 0 where
  pub array_addresses : List String
  pub user : String
  pub password : String
  pub system_id : Option String
  pub partition_name : Option String
  pub partition_vg : Option String
  pub port_set : Option String
  pub verify_ssl : Bool

-- `topologies.items() <= node_topologies.items()`
abbrev is_subset : Dict String → Dict String → Bool
is_subset topologies node =
    all (λ e. elim (lookup e.0 node) [ none ↦ false | some v ↦ v == e.1 ]) topologies

unfoldable pub is_topology_match : List (Dict String) → Dict String → Bool
is_topology_match system_topologies node_topologies =
    any (λ t. is_subset t node_topologies) system_topologies

-- The first system that matches. Iterating over topologies that are not there is a `TypeError`.
unfoldable pub get_system_info_for_topologies :
    Dict SystemInfo → Dict String → Outcome (SystemInfo × String)
get_system_info_for_topologies [] node = raised (Exception.validation Message.no_system_match)
get_system_info_for_topologies ((id, info) ∷ rest) node =
    let others = get_system_info_for_topologies rest node in
    elim info.supported_topologies [
      | none ↦ raised Exception.type_error
      | some ts ↦ if is_topology_match ts node then returned (info, id) else others
    ]

-- `d[key]`
abbrev item : String → Dict String → Outcome String
item key d = elim (lookup key d) [ none ↦ raised Exception.key_error | some v ↦ returned v ]

-- `_get_array_connection_info_from_system_info`; subscripting `None` is a `TypeError`.
unfoldable pub connection_info : Option SystemInfo → Option String → Outcome ArrayConnectionInfo
connection_info none system_id = raised Exception.type_error
connection_info (some info) system_id = do
  user ← item "username" info.fields
  password ← item "password" info.fields
  addresses ← item "management_address" info.fields
  returned (record {
    array_addresses = split "," addresses;
    user = user;
    password = password;
    system_id = system_id;
    partition_name = lookup "partition_name" info.fields;
    partition_vg = lookup "partition_default_vg" info.fields;
    port_set = lookup "port_set" info.fields;
    verify_ssl = lower (lookup_or "verify_ssl" "false" info.fields) == "true";
  })

-- The class [a-zA-Z0-9] of `SECRET_VALIDATION_REGEX`, and [a-zA-Z0-9-_.]
unfoldable pub is_alnum : Char → Bool
is_alnum c =
    let n = code c in (leb 48 n && leb n 57) || (leb 65 n && leb n 90) || (leb 97 n && leb n 122)

unfoldable pub is_inner : Char → Bool
unfolding is_alnum
is_inner c = let n = code c in is_alnum c || nat_eq n 45 || nat_eq n 95 || nat_eq n 46

-- `$`: the end of the text, or before a line break that ends it.
unfoldable pub at_end : String → Bool
at_end String.[] = true
at_end (String.◌∷◌ c s) = nat_eq (code c) 10 && s == ""

-- [a-zA-Z0-9-_.]*[a-zA-Z0-9]$
unfoldable pub matches_rest : String → Bool
unfolding at_end is_inner
matches_rest String.[] = false
matches_rest (String.◌∷◌ c s) = (is_alnum c && at_end s) || (is_inner c && matches_rest s)

-- `_is_system_id_valid`: `re.match` by `SECRET_VALIDATION_REGEX`
unfoldable pub is_system_id_valid : String → Bool
unfolding matches_rest
is_system_id_valid String.[] = false
is_system_id_valid (String.◌∷◌ c s) = is_alnum c && matches_rest s

-- `SECRET_SYSTEM_ID_MAX_LENGTH`: 128 less the 32 of a WWN, the 10 of the longest array type and the
-- 2 delimiters.
abbrev pub system_id_max_length : ℕ
system_id_max_length = 128 - 32 - str_length "SANtricity" - 2

unfoldable pub validate_system_id : String → Outcome (Unit {0})
unfolding is_system_id_valid
validate_system_id system_id = do
  raise_if (not (is_system_id_valid system_id)) (Exception.validation Message.invalid_system_id)
  raise_if (ltb system_id_max_length (str_length system_id))
      (Exception.validation Message.parameter_too_long)

-- `_validate_secrets`
unfoldable pub validate_connection_info : Dict String → Outcome (Unit {0})
validate_connection_info fields =
    raise_if
      (not (
        has_key "username" fields
        && has_key "password" fields
        && has_key "management_address" fields))
      (Exception.validation Message.secret_missing_connection_info)

unfoldable pub validate_topologies : Option (List (Dict String)) → Outcome (Unit {0})
validate_topologies none = raised (Exception.validation Message.secret_missing_topologies)
validate_topologies (some ts) =
    raise_if (is_empty ts || not (all (λ t. not (is_empty t)) ts))
      (Exception.validation Message.secret_missing_topologies)

-- `bool(system_info)`: a dict that is not empty
abbrev is_filled : SystemInfo → Bool
is_filled info = not (is_empty info.fields) || is_some info.supported_topologies

unfoldable pub validate_system : String × SystemInfo → Outcome (Unit {0})
unfolding validate_system_id validate_connection_info validate_topologies
validate_system (system_id, info) = do
  raise_if (not (truthy system_id && is_filled info))
      (Exception.validation Message.invalid_secret_config)
  validate_system_id system_id
  validate_connection_info info.fields
  validate_topologies info.supported_topologies

-- `_validate_secrets_config`
unfoldable pub validate_secrets_config : Dict SystemInfo → Outcome (Unit {0})
validate_secrets_config config = for_each validate_system config

-- `if topologies`: not `None` and not the empty dict
abbrev by_topologies :
    Dict SystemInfo → Option (Dict String) → Outcome (Option SystemInfo × Option String)
by_topologies config none = raised (Exception.validation Message.insufficient_data)
by_topologies config (some []) = raised (Exception.validation Message.insufficient_data)
by_topologies config (some (t ∷ ts)) = do
  found ← get_system_info_for_topologies config (t ∷ ts)
  returned (some found.0, some found.1)

-- The branches of `_get_system_info_from_secrets` under a config: a system id that is given is looked
-- up with `dict.get`, and otherwise the topologies choose.
unfoldable pub choose_system :
    Dict SystemInfo
    → Option (Dict String)
    → Option String
    → Outcome (Option SystemInfo × Option String)
choose_system config topologies none = by_topologies config topologies
choose_system config topologies (some id) =
    if truthy id then returned (lookup id config, some id) else by_topologies config topologies

module _ (loads : String → Option (Dict SystemInfo)) where
  -- `_parse_raw_json`
  unfoldable pub parse_raw_json : String → Outcome (Dict SystemInfo)
  parse_raw_json raw = elim (loads raw) [
    | none ↦ raised (Exception.validation Message.invalid_json)
    | some config ↦ returned config
  ]

  -- `_get_system_info_from_secrets`
  unfoldable pub get_system_info_from_secrets :
      Dict String
      → Option (Dict String)
      → Option String
      → Outcome (Option SystemInfo × Option String)
  unfolding choose_system parse_raw_json
  get_system_info_from_secrets secrets topologies system_id =
      if truthy (lookup_or "config" "" secrets)
      then (do
        config ← parse_raw_json (lookup_or "config" "" secrets)
        choose_system config topologies system_id)
      else returned (some (of_secrets secrets), system_id)

  unfoldable pub get_array_connection_info_from_secrets :
      Dict String → Option (Dict String) → Option String → Outcome ArrayConnectionInfo
  unfolding get_system_info_from_secrets
  get_array_connection_info_from_secrets secrets topologies system_id = do
    found ← get_system_info_from_secrets secrets topologies system_id
    connection_info found.0 found.1

  unfoldable pub validate_secrets : Dict String → Outcome (Unit {0})
  unfolding parse_raw_json
  validate_secrets secrets =
      if is_empty secrets
      then raised (Exception.validation Message.secret_missing)
      else if truthy (lookup_or "config" "" secrets)
      then (do
        config ← parse_raw_json (lookup_or "config" "" secrets)
        validate_secrets_config config)
      else validate_connection_info secrets
