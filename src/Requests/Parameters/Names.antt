-- ===== src/Requests/Parameters/Names.antt =====
-- What the names and the numbers of the parameters satisfy.
use ibm_block_csi_driver.Prelude.{
  ℕ, ◌≤◌, ◌≡◌, sym, subst, ◌∙◌, false, Option, some, String, str_length, str_take,
  str_length-take-le, str_take_all, ltb, if◌then◌else◌, arith,
}
use ibm_block_csi_driver.Outcome.{returned, >>=-eq-returned}
use ibm_block_csi_driver.Requests.Parameters.{
  NameLimits, join_object_prefix_with_name, chosen_prefix, get_object_final_name,
  parse_optional_int_parameter,
}

-- The name that is cut to the limit.
abbrev uncut : (String → String) → Option String → String → NameLimits → String
uncut hash_string p name limits =
    if ltb limits.max_object_name_length (str_length (join_object_prefix_with_name p name))
    then join_object_prefix_with_name p (hash_string name)
    else join_object_prefix_with_name p name

take-uncut :
    (hash_string : String → String) (p : Option String) (name : String) (limits : NameLimits)
    → str_length (join_object_prefix_with_name p name) ≤ limits.max_object_name_length
    → str_take limits.max_object_name_length (uncut hash_string p name limits)
      ≡ join_object_prefix_with_name p name
take-uncut hash_string p name limits h =
    let short : ltb limits.max_object_name_length (str_length (join_object_prefix_with_name p name))
        ≡ false =
      ground arith in
    rw short (str_take_all _ _ h)

-- A final name is never longer than the mediator allows. Where the name with its prefix is short
-- enough it is that very name, and otherwise it is cut out of the prefix and the hash of the name.
pub get_object_final_name-bounded :
    (hash_string : String → String) (prefix : Option String) (name : String) (limits : NameLimits)
    {full : String}
    → get_object_final_name hash_string prefix name limits ≡ returned full
    → (p : Option String) × (chosen_prefix prefix limits ≡ returned p)
      × (str_length full ≤ limits.max_object_name_length)
      × (str_length (join_object_prefix_with_name p name) ≤ limits.max_object_name_length
          → full ≡ join_object_prefix_with_name p name)
unfolding get_object_final_name
get_object_final_name-bounded hash_string prefix name limits {full} h =
    let (p, e, f) = >>=-eq-returned (chosen_prefix prefix limits) _ h in
    let w : str_take limits.max_object_name_length (uncut hash_string p name limits) ≡ full = cc in
    (
      p,
      e,
      subst (λ t. str_length t ≤ limits.max_object_name_length) w (str_length-take-le _ _),
      λ short. sym w ∙ take-uncut hash_string p name limits short,
    )

-- An accepted number lies within its bounds.
parse_optional_int_parameter-bounds :
    (s : Option String) (minimum maximum : ℕ) {n : ℕ}
    → parse_optional_int_parameter s minimum maximum ≡ returned (some n)
    → (minimum ≤ n) × (n ≤ maximum)
unfolding parse_optional_int_parameter
parse_optional_int_parameter-bounds s minimum maximum h = ground arith
