-- ===== src/Requests/Validation/Contents.antt =====
-- What the secrets and the source of a request that was accepted hold.
use ibm_block_csi_driver.Prelude.{
  ℕ, ◌≡◌, ◌≤◌, str_length, refl, Bool, true, false, not, ◌⊎◌, inl, inr, Bool-cases, Option, none,
  some, String, List, [], ◌∷◌, Dict, lookup_or, is_empty, All, all, truthy, contains, split, length,
  has_key, ◌&&◌, ◌||◌, ltb, nat_eq, arith, Option-cases,
}
use ibm_block_csi_driver.Errors.{Exception, Message}
use ibm_block_csi_driver.Outcome.{Outcome, returned, raised, raise_if, for_each, ◌>>◌}
use ibm_block_csi_driver.Requests.Ids.{validate_object_id}
use ibm_block_csi_driver.Requests.Secrets.{
  SystemInfo, is_system_id_valid, system_id_max_length, validate_system_id,
  validate_connection_info, validate_topologies, validate_system, validate_secrets_config,
  parse_raw_json, validate_secrets,
}
use ibm_block_csi_driver.Requests.Messages.{
  ContentSource, from_snapshot, from_volume, no_source_type,
}
use ibm_block_csi_driver.Requests.Validation.{validate_create_volume_source}

-- A sequence of checks passes where both parts do.
pub >>-eq-returned :
    (m k : Outcome (Unit {0})) → (m >> k) ≡ returned tt → (m ≡ returned tt) × (k ≡ returned tt)
>>-eq-returned (returned u) k h = (refl, h)
>>-eq-returned (raised e) k h = cc

pub raise_if-passed : (b : Bool) (e : Exception) → raise_if b e ≡ returned tt → b ≡ false
raise_if-passed true e h = cc
raise_if-passed false e h = refl

pub not-false : (b : Bool) → not b ≡ false → b ≡ true
not-false true h = refl
not-false false h = cc

-- The three fields without which no array is reached
abbrev pub Connects : Dict String → Type 0
Connects fields =
    (has_key "username" fields ≡ true)
    × (has_key "password" fields ≡ true)
    × (has_key "management_address" fields ≡ true)

-- A system of a config: its id is valid, its connection complete, and it has topologies, none empty.
abbrev pub System : String × SystemInfo → Type 0
System (id, info) =
    (is_system_id_valid id ≡ true)
    × (str_length id ≤ system_id_max_length)
    × Connects info.fields
    × ((ts : List (Dict String)) × (info.supported_topologies ≡ some ts)
        × (is_empty ts ≡ false)
        × (all (λ t. not (is_empty t)) ts ≡ true))

-- Secrets that hold a connection themselves, or a config that can be read and that holds systems only
abbrev pub Secrets : (String → Option (Dict SystemInfo)) → Dict String → Type 0
Secrets loads secrets =
    ((truthy (lookup_or "config" "" secrets) ≡ false) × Connects secrets)
    ⊎ ((config : Dict SystemInfo) × (loads (lookup_or "config" "" secrets) ≡ some config)
        × All System config)

-- The id of a source has two parts or three.
abbrev pub WellFormed : String → Type 0
WellFormed id =
    (contains ":" id ≡ true) × ((length (split ":" id) ≡ 2) ⊎ (length (split ":" id) ≡ 3))

abbrev pub Source : Option ContentSource → Type 0
Source none = Unit {0}
Source (some (from_snapshot id)) = WellFormed id
Source (some (from_volume id)) = WellFormed id
Source (some no_source_type) = Unit {0}

and-true : (a b c : Bool) → not (a && b && c) ≡ false → (a ≡ true) × (b ≡ true) × (c ≡ true)
and-true true true true h = (refl, refl, refl)
and-true true true false h = cc
and-true true false c h = cc
and-true false b c h = cc

validate_connection_info-Connects :
    (fields : Dict String) → validate_connection_info fields ≡ returned tt → Connects fields
unfolding validate_connection_info
validate_connection_info-Connects fields h = and-true _ _ _ (raise_if-passed _ _ h)

topologies_given :
    (ts : Option (List (Dict String)))
    → validate_topologies ts ≡ returned tt
    → (us : List (Dict String)) × (ts ≡ some us)
      × (is_empty us ≡ false)
      × (all (λ t. not (is_empty t)) us ≡ true)
unfolding validate_topologies
topologies_given none h = cc
topologies_given (some us) h =
    let passed = raise_if-passed (is_empty us || not (all (λ t. not (is_empty t)) us)) _ h in
    (us, refl, ground (arith, passed), ground (arith, passed))

validate_system_id-valid :
    (id : String)
    → validate_system_id id ≡ returned tt
    → (is_system_id_valid id ≡ true) × (str_length id ≤ system_id_max_length)
unfolding validate_system_id
validate_system_id-valid id h =
    let (shape, short) = >>-eq-returned _ _ h in
    let long = raise_if-passed (ltb system_id_max_length (str_length id)) _ short in
    (not-false _ (raise_if-passed _ _ shape), ground (arith, long))

validate_system-System :
    (id : String) (info : SystemInfo) → validate_system (id, info) ≡ returned tt → System (id, info)
unfolding validate_system
validate_system-System id info h =
    let (_, h1) = >>-eq-returned _ _ h in
    let (valid, h2) = >>-eq-returned (validate_system_id id) _ h1 in
    let (connects, topologies) = >>-eq-returned _ _ h2 in
    let (shape, short) = validate_system_id-valid id valid in
    (
      shape,
      short,
      validate_connection_info-Connects info.fields connects,
      topologies_given info.supported_topologies topologies,
    )

systems :
    (config : Dict SystemInfo) → for_each validate_system config ≡ returned tt → All System config
unfolding for_each
systems [] h = tt
systems ((id, info) ∷ config) h =
    let (first, rest) = >>-eq-returned (validate_system (id, info)) _ h in
    (validate_system-System id info first, systems config rest)

pub validate_secrets-Secrets :
    (loads : String → Option (Dict SystemInfo)) (secrets : Dict String)
    → validate_secrets loads secrets ≡ returned tt
    → Secrets loads secrets
unfolding validate_secrets parse_raw_json validate_secrets_config
validate_secrets-Secrets loads [] h = cc
validate_secrets-Secrets loads (s ∷ ss) h =
    let text = lookup_or "config" "" (s ∷ ss) in
    elim (Bool-cases (truthy text)) [
      | inr no_config ↦
          inl (no_config, validate_connection_info-Connects (s ∷ ss) (rw no_config at h))
      | inl given ↦ elim (Option-cases (loads text)) [
        | inl e ↦ absurd (ground (arith, h, given, e))
        | inr (config, e) ↦ inr (config, e, systems config (ground (arith, h, given, e)))
      ]
    ]

two_or_three : (n : ℕ) → not (nat_eq n 2 || nat_eq n 3) ≡ false → (n ≡ 2) ⊎ (n ≡ 3)
two_or_three n h = ground (arith, h)

validate_object_id-WellFormed :
    (id : String) (missing : Message) → validate_object_id id missing ≡ returned tt → WellFormed id
unfolding validate_object_id
validate_object_id-WellFormed id missing h =
    let (_, h1) = >>-eq-returned _ _ h in
    let (colon, parts) = >>-eq-returned _ _ h1 in
    let n = length (split ":" id) in
    let counted = raise_if-passed (not (nat_eq n 2 || nat_eq n 3)) _ parts in
    (not-false _ (raise_if-passed _ _ colon), two_or_three n counted)

pub validate_create_volume_source-Source :
    (s : Option ContentSource) → validate_create_volume_source s ≡ returned tt → Source s
unfolding validate_create_volume_source
validate_create_volume_source-Source none h = tt
validate_create_volume_source-Source (some (from_snapshot id)) h =
    validate_object_id-WellFormed id _ h
validate_create_volume_source-Source (some (from_volume id)) h =
    validate_object_id-WellFormed id _ h
validate_create_volume_source-Source (some no_source_type) h = tt
