-- ===== src/Requests/Parameters.antt =====
-- The storage class parameters of a request, and the name that an object gets on the array:
-- controllers/servers/utils.py. JSON and the hash of a name are the environment's: arguments.
pub mod Names
use ibm_block_csi_driver.Prelude.{
  ℕ, ◌+◌, ◌-◌, ◌*◌, Bool, true, false, not, ◌||◌, ◌&&◌, Option, none, some, String, List, [], ◌∷◌,
  Dict, lookup, ℤ, pos, negsuc, truthy, truthy?, strip, lower, join, str_length, str_take, code,
  ltb, leb, nat_eq, ◌==◌, if◌then◌else◌,
}
use ibm_block_csi_driver.Errors.{Exception, Message}
use ibm_block_csi_driver.Outcome.{Outcome, returned, raised, raise_if, ◌>>=◌, ◌>>◌}

pub record ObjectParameters : Type 0 where
  pub pool : Option String
  pub space_efficiency : Option String
  pub prefix : Option String
  pub io_group : Option String
  pub volume_group : Option String
  pub virt_snap_func : Bool
  pub initial_repo_group_size_pct : Option ℕ

-- `_str_to_bool`
unfoldable pub str_to_bool : Option String → Bool
str_to_bool none = false
str_to_bool (some s) = truthy s && lower s == "true"

-- The digits of Python's `int`, with single underscores between them.
digits : ℕ → Bool → String → Option ℕ
digits n after_digit String.[] = if after_digit then some n else none
digits n after_digit (String.◌∷◌ c s) =
    let d = code c in
    let more = digits (n * 10 + (d - 48)) true s in
    let underscore = digits n false s in
    if leb 48 d && leb d 57 then more else if nat_eq d 95 && after_digit then underscore else none

negated : ℕ → ℤ
negated n = if nat_eq n 0 then pos 0 else negsuc (n - 1)

-- `int(s)`, for the text of a decimal number; `none` is a `ValueError`
unfoldable pub parse_int : String → Option ℤ
unfolding digits negated
parse_int String.[] = none
parse_int (String.◌∷◌ c s) =
    if nat_eq (code c) 45
    then (elim (digits 0 false s) [ none ↦ none | some n ↦ some (negated n) ])
    else if nat_eq (code c) 43
    then (elim (digits 0 false s) [ none ↦ none | some n ↦ some (pos n) ])
    else (elim (digits 0 false (String.◌∷◌ c s)) [ none ↦ none | some n ↦ some (pos n) ])

check_range : ℕ → ℕ → ℤ → Outcome (Option ℕ)
check_range minimum maximum (negsuc n) = raised (Exception.validation Message.int_too_small)
check_range minimum maximum (pos n) =
    if ltb n minimum
    then raised (Exception.validation Message.int_too_small)
    else if ltb maximum n
    then raised (Exception.validation Message.int_too_large)
    else returned (some n)

-- `_parse_optional_int_parameter`
unfoldable pub parse_optional_int_parameter : Option String → ℕ → ℕ → Outcome (Option ℕ)
unfolding check_range
parse_optional_int_parameter none minimum maximum = returned none
parse_optional_int_parameter (some s) minimum maximum = elim (parse_int (strip s)) [
  | none ↦ raised (Exception.validation Message.int_expected)
  | some value ↦ check_range minimum maximum value
]

-- `system_parameters.get(key, parameters.get(key))`
unfoldable pub parameter : String → Dict String → Dict String → Option String
parameter key system_parameters parameters = elim (lookup key system_parameters) [
  | none ↦ lookup key parameters
  | some v ↦ some v
]

module _ (loads : String → Option (Dict (Dict String))) where
  abbrev system_dict : String → Option (Dict (Dict String)) → Outcome (Dict String)
  system_dict system_id none = raised (Exception.validation Message.invalid_json)
  system_dict system_id (some by_system) = elim (lookup system_id by_system) [
    | none ↦ returned []
    | some d ↦ returned d
  ]

  -- The parameters that the storage class gives for one system.
  unfoldable pub system_parameters_of : Option String → Option String → Outcome (Dict String)
  system_parameters_of (some raw) (some system_id) =
      if truthy raw && truthy system_id then system_dict system_id (loads raw) else returned []
  system_parameters_of _ _ = returned []

  unfoldable pub get_object_parameters :
      Dict String → String → Option String → Outcome ObjectParameters
  unfolding system_parameters_of
  get_object_parameters parameters prefix_param_name system_id = do
    own ← system_parameters_of (lookup "by_management_id" parameters) system_id
    pct ←
        parse_optional_int_parameter (parameter "initial_repo_group_size_pct" own parameters) 1 100
    returned (record {
      pool = parameter "pool" own parameters;
      space_efficiency = parameter "SpaceEfficiency" own parameters;
      prefix = parameter prefix_param_name own parameters;
      io_group = parameter "io_group" own parameters;
      volume_group = parameter "volume_group" own parameters;
      virt_snap_func = str_to_bool (parameter "virt_snap_func" own parameters);
      initial_repo_group_size_pct = pct;
    })

-- The limits of a mediator on names.
pub record NameLimits : Type 0 where
  pub max_object_name_length : ℕ
  pub max_object_prefix_length : ℕ
  pub default_object_prefix : Option String

-- `join_object_prefix_with_name`
unfoldable pub join_object_prefix_with_name : Option String → String → String
join_object_prefix_with_name none name = name
join_object_prefix_with_name (some prefix) name =
    if truthy prefix then join "_" (prefix ∷ name ∷ []) else name

-- The prefix that the parameters give, or else the mediator's.
unfoldable pub chosen_prefix : Option String → NameLimits → Outcome (Option String)
chosen_prefix none limits = returned limits.default_object_prefix
chosen_prefix (some prefix) limits =
    if truthy prefix
    then (if ltb limits.max_object_prefix_length (str_length prefix)
        then raised Exception.invalid_argument
        else returned (some prefix))
    else returned limits.default_object_prefix

module _ (hash_string : String → String) where
  -- `get_object_final_name`
  unfoldable pub get_object_final_name : Option String → String → NameLimits → Outcome String
  unfolding chosen_prefix
  get_object_final_name prefix name limits = do
    chosen ← chosen_prefix prefix limits
    let full_name = join_object_prefix_with_name chosen name
    let hashed_name = join_object_prefix_with_name chosen (hash_string name)
    returned (
        str_take limits.max_object_name_length (
          if ltb limits.max_object_name_length (str_length full_name)
          then hashed_name
          else full_name))
