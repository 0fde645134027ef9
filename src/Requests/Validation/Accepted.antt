-- ===== src/Requests/Validation/Accepted.antt =====
-- What a request that was accepted satisfies.
use ibm_block_csi_driver.Prelude.{
  ℕ, ◌≡◌, refl, true, false, ◌⊎◌, inl, inr, Option, none, some, String, List, [], ◌∷◌, Dict, lookup,
  lookup_or, is_empty, All, ℤ, pos, negsuc, truthy, elem, arith, Option-cases,
}
use ibm_block_csi_driver.Outcome.{returned, raise_if, for_each}
use ibm_block_csi_driver.Requests.Secrets.{SystemInfo}
use ibm_block_csi_driver.Requests.Messages.{
  AccessMode, AccessType, mount, block, no_access_type, VolumeCapability, CreateVolumeRequest,
}
use ibm_block_csi_driver.Requests.Validation.Contents.{
  >>-eq-returned, raise_if-passed, not-false, Secrets, Source, validate_secrets-Secrets,
  validate_create_volume_source-Source,
}
use ibm_block_csi_driver.Requests.Validation.{
  is_supported_mode, validate_csi_volume_capability, validate_csi_volume_capabilities,
  validate_capacity, validate_pool_parameter, required_field, validate_minimum_request_fields,
  validate_create_volume_request,
}

abbrev ServedType : AccessType → Type 0
ServedType (mount fs_type mount_flags) =
    (mount_flags ≡ []) × ((truthy fs_type ≡ false) ⊎ (elem fs_type ("ext4" ∷ "xfs" ∷ []) ≡ true))
ServedType block = Unit {0}
ServedType no_access_type = ⊥

-- A capability that the driver serves: a supported access mode, with a raw block device or a file
-- system of a known type (or of none given) and no mount flags.
abbrev pub Served : VolumeCapability → Type 0
Served cap = (is_supported_mode cap.access_mode ≡ true) × ServedType cap.access_type

validate_csi_volume_capability-Served :
    (t : AccessType) (m : AccessMode)
    → validate_csi_volume_capability (record { access_type = t; access_mode = m }) ≡ returned tt
    → Served (record { access_type = t; access_mode = m })
unfolding validate_csi_volume_capability
validate_csi_volume_capability-Served (mount fs flags) m h = ground arith
validate_csi_volume_capability-Served block m h = ground arith
validate_csi_volume_capability-Served no_access_type m h = ground arith

capabilities-Served :
    (caps : List VolumeCapability)
    → for_each validate_csi_volume_capability caps ≡ returned tt
    → All Served caps
unfolding for_each
capabilities-Served [] h = tt
capabilities-Served (c ∷ cs) h =
    let (first, rest) = >>-eq-returned (validate_csi_volume_capability c) _ h in
    (
      validate_csi_volume_capability-Served c.access_type c.access_mode first,
      capabilities-Served cs rest,
    )

-- What the creation of a volume rests on.
pub record IsAccepted (loads : String → Option (Dict SystemInfo)) (r : CreateVolumeRequest)
    : Type 0 where
  pub named : truthy r.name ≡ true
  pub secrets : Secrets loads r.secrets
  pub capacity : (n : ℕ) × (r.capacity_range ≡ some (pos n))
  pub some_capability : is_empty r.volume_capabilities ≡ false
  pub capabilities : All Served r.volume_capabilities
  pub pool :
      ((p : String) × (lookup "pool" r.parameters ≡ some p) × (truthy p ≡ true))
      ⊎ (truthy (lookup_or "by_management_id" "" r.parameters) ≡ true)
  pub source : Source r.volume_content_source

capacity-pos : (c : Option ℤ) → validate_capacity c ≡ returned tt → (n : ℕ) × (c ≡ some (pos n))
unfolding validate_capacity
capacity-pos none h = cc
capacity-pos (some (pos n)) h = (n, refl)
capacity-pos (some (negsuc n)) h = cc

pool-given :
    (ps : Dict String)
    → validate_pool_parameter ps ≡ returned tt
    → ((p : String) × (lookup "pool" ps ≡ some p) × (truthy p ≡ true))
      ⊎ (truthy (lookup_or "by_management_id" "" ps) ≡ true)
unfolding validate_pool_parameter
pool-given ps h = elim (Option-cases (lookup "pool" ps)) [
  | inl e ↦ inr (ground arith)
  | inr (p, e) ↦ inl (p, e, ground arith)
]

-- A request to create a volume that passes the validation has a name, a size that is not negative, at
-- least one capability and only ones that the driver serves, and a pool or parameters by system. Its
-- secrets hold a user name, a password and a management address, or a config that can be read and each of
-- whose systems has these three, a valid id that is not too long, and topologies, none of them empty. The
-- id of its source, if it has one, has a colon, and two or three parts.
pub validate_create_volume_request-IsAccepted :
    (loads : String → Option (Dict SystemInfo)) (r : CreateVolumeRequest)
    → validate_create_volume_request loads r ≡ returned tt
    → IsAccepted loads r
unfolding validate_create_volume_request validate_csi_volume_capabilities
validate_create_volume_request-IsAccepted loads r h =
    let (fields, h1) =
      >>-eq-returned (validate_minimum_request_fields loads ((r.name, "name") ∷ []) r.secrets) _
        h in
    let (names, secrets) =
      >>-eq-returned (for_each required_field ((r.name, "name") ∷ [])) _ fields in
    let (named, _) = >>-eq-returned (required_field (r.name, "name")) _ names in
    let (capacity, h2) = >>-eq-returned (validate_capacity r.capacity_range) _ h1 in
    let (caps, h3) = >>-eq-returned (validate_csi_volume_capabilities r.volume_capabilities) _ h2 in
    let (some_cap, each) = >>-eq-returned (raise_if (is_empty r.volume_capabilities) _) _ caps in
    let (_, h4) = >>-eq-returned (raise_if (is_empty r.parameters) _) _ h3 in
    let (pool, source) = >>-eq-returned (validate_pool_parameter r.parameters) _ h4 in
    record {
      named = not-false (truthy r.name) (raise_if-passed _ _ named);
      secrets = validate_secrets-Secrets loads r.secrets secrets;
      capacity = capacity-pos r.capacity_range capacity;
      some_capability = raise_if-passed _ _ some_cap;
      capabilities = capabilities-Served r.volume_capabilities each;
      pool = pool-given r.parameters pool;
      source = validate_create_volume_source-Source r.volume_content_source source;
    }
