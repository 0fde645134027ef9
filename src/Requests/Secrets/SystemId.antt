-- ===== src/Requests/Secrets/SystemId.antt =====
-- What the validation of a system id gives the ids that are made with it.
use ibm_block_csi_driver.Prelude.{
  ◌≤◌, ◌<◌, ◌≡◌, refl, true, false, some, String, Char, code, contains, contains_empty, truthy-cons,
  ap, ◌∙◌, truthy, str_length, nat_eq, arith,
}
use ibm_block_csi_driver.Outcome.{returned}
use ibm_block_csi_driver.Requests.Ids.{
  get_object_id, get_object_id_info, normalize_utf8_text, volume,
}
use ibm_block_csi_driver.Requests.Ids.RoundTrip.{
  IsPlain, written, get_object_id_info-get_object_id, str_length-get_object_id,
}
use ibm_block_csi_driver.Requests.Secrets.{
  is_alnum, is_inner, at_end, matches_rest, is_system_id_valid, validate_system_id,
  system_id_max_length,
}

is_inner-ne-colon : (c : Char) → is_inner c ≡ true → nat_eq (code c) 58 ≡ false
unfolding is_inner
is_inner-ne-colon c h = ground arith

at_end-no_colon : (s : String) → at_end s ≡ true → contains ":" s ≡ false
unfolding at_end contains
at_end-no_colon String.[] h = refl
at_end-no_colon (String.◌∷◌ c s) h = ground (arith, contains_empty ":" s)

is_alnum-is_inner : (c : Char) → is_alnum c ≡ true → is_inner c ≡ true
unfolding is_inner
is_alnum-is_inner c h = ground arith

matches_rest-no_colon : (s : String) → matches_rest s ≡ true → contains ":" s ≡ false
unfolding matches_rest contains
matches_rest-no_colon String.[] h = refl
matches_rest-no_colon (String.◌∷◌ c s) h =
    ground
      (arith, is_inner-ne-colon c, is_alnum-is_inner c, at_end-no_colon s, matches_rest-no_colon s)

is_system_id_valid-no_colon :
    (s : String) → is_system_id_valid s ≡ true → (contains ":" s ≡ false) × (truthy s ≡ true)
unfolding is_system_id_valid contains
is_system_id_valid-no_colon String.[] h = cc
is_system_id_valid-no_colon (String.◌∷◌ c s) h = (
  ground (arith, is_inner-ne-colon c, is_alnum-is_inner c, matches_rest-no_colon s),
  truthy-cons c s,
)

validate_system_id-valid :
    (s : String)
    → validate_system_id s ≡ returned tt
    → (is_system_id_valid s ≡ true) × (str_length s ≤ system_id_max_length)
unfolding validate_system_id
validate_system_id-valid s h = ground arith

written_lem : (s : String) → truthy s ≡ true → written (some s) ≡ some s
written_lem s t = rw t

-- A system id that passed the validation of the secrets can be read back out of every volume id made
-- with it, where the array type holds no colon and the object ids no delimiter.
pub get_object_id_info-validated :
    (system_id array_type internal_id uid : String)
    → validate_system_id system_id ≡ returned tt
    → contains ":" array_type ≡ false
    → IsPlain internal_id
    → IsPlain uid
    → get_object_id_info
        (get_object_id array_type (some internal_id) (some uid) (some system_id))
        volume
      ≡ returned (record {
        array_type = array_type;
        system_id = some system_id;
        ids = record { internal_id = some internal_id; uid = some uid };
      })
unfolding normalize_utf8_text
get_object_id_info-validated system_id array_type internal_id uid v h p q =
    let (k, t) = is_system_id_valid-no_colon system_id (validate_system_id-valid system_id v).0 in
    get_object_id_info-get_object_id array_type (some internal_id) (some uid) h p q (some system_id)
      k
    ∙ ap
        (λ w. returned (record {
          array_type = array_type;
          system_id = w;
          ids = record { internal_id = some internal_id; uid = some uid };
        }))
        (written_lem system_id t)

-- The limit on a system id is meant to keep volume ids within 128 characters, and it leaves out the
-- internal id and its delimiter: a valid system id of the greatest length, in a volume id with an
-- array type of 10 characters and a uid of 32, gives a volume id of more than 128.
longest_system_id_overflows :
    (system_id array_type internal_id uid : String)
    → validate_system_id system_id ≡ returned tt
    → str_length system_id ≡ system_id_max_length
    → str_length array_type ≡ 10
    → str_length uid ≡ 32
    → 128 < str_length (get_object_id array_type (some internal_id) (some uid) (some system_id))
longest_system_id_overflows system_id array_type internal_id uid v a b c =
    let t = (is_system_id_valid-no_colon system_id (validate_system_id-valid system_id v).0).1 in
    omega (arith, str_length-get_object_id array_type system_id internal_id uid t)
