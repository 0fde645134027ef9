-- ===== src/Requests/Ids/RoundTrip.antt =====
-- Reading an id gives back what it was made of.
use Prim.Native.String.{◌++◌}
use ibm_block_csi_driver.Prelude.{
  ◌+◌, ◌≡◌, ap, ◌∙◌, true, false, Option, none, some, String, [], ◌∷◌, split, join, contains,
  contains-truthy, truthy, truthy?, length, ◌⊎◌, inl, inr, Bool-cases, if◌then◌else◌, arith,
  split-append, split-no_separator, contains-append, str_length, str_length-append,
}
use ibm_block_csi_driver.Errors.{Message}
use ibm_block_csi_driver.Outcome.{returned}
use ibm_block_csi_driver.Requests.Ids.{
  normalize_utf8_text, ids_value, get_object_id, get_object_id_info, validate_object_id, volume,
}

-- A text that holds neither delimiter.
pub record IsPlain (s : String) : Type 0 where
  pub no_colon : contains ":" s ≡ false
  pub no_semicolon : contains ";" s ≡ false

module _ (internal_id uid : String) (p : IsPlain internal_id) (q : IsPlain uid) where
  ids_value-no_colon : contains ":" (ids_value internal_id uid) ≡ false
  unfolding join contains
  ids_value-no_colon =
      rw (contains-append ":" internal_id (";" ++ uid), contains-append ":" ";" uid)
        (ground (arith, p.no_colon, q.no_colon))

  split-ids_value : split ";" (ids_value internal_id uid) ≡ internal_id ∷ uid ∷ []
  unfolding join
  split-ids_value =
      split-append ";" internal_id uid p.no_semicolon
      ∙ ap (λ r. internal_id ∷ r) (split-no_separator ";" uid q.no_semicolon)

  -- The parts of a full id, without and with a system id.
  split-id :
      (array_type : String)
      → contains ":" array_type ≡ false
      → split ":" (join ":" (array_type ∷ ids_value internal_id uid ∷ []))
        ≡ array_type ∷ ids_value internal_id uid ∷ []
  unfolding join
  split-id array_type h =
      split-append ":" array_type (ids_value internal_id uid) h
      ∙ ap (λ r. array_type ∷ r) (split-no_separator ":" _ ids_value-no_colon)

  split-id_system :
      (array_type system_id : String)
      → contains ":" array_type ≡ false
      → contains ":" system_id ≡ false
      → split ":" (join ":" (array_type ∷ system_id ∷ ids_value internal_id uid ∷ []))
        ≡ array_type ∷ system_id ∷ ids_value internal_id uid ∷ []
  unfolding join
  split-id_system array_type system_id h k =
      split-append ":" array_type _ h
      ∙ ap (λ r. array_type ∷ r) (split-append ":" system_id (ids_value internal_id uid) k)
      ∙ ap (λ r. array_type ∷ system_id ∷ r) (split-no_separator ":" _ ids_value-no_colon)

-- Reading an id whose parts are known.
read_id :
    (full array_type value internal_id uid : String)
    → split ":" full ≡ array_type ∷ value ∷ []
    → split ";" value ≡ internal_id ∷ uid ∷ []
    → get_object_id_info full volume
      ≡ returned (record {
        array_type = array_type;
        system_id = none;
        ids = record { internal_id = some internal_id; uid = some uid };
      })
unfolding get_object_id_info
read_id full array_type value internal_id uid e f = ground arith

read_id_system :
    (full array_type system_id value internal_id uid : String)
    → split ":" full ≡ array_type ∷ system_id ∷ value ∷ []
    → split ";" value ≡ internal_id ∷ uid ∷ []
    → get_object_id_info full volume
      ≡ returned (record {
        array_type = array_type;
        system_id = some system_id;
        ids = record { internal_id = some internal_id; uid = some uid };
      })
unfolding get_object_id_info
read_id_system full array_type system_id value internal_id uid e f = ground arith

validate_parts :
    (full : String) (missing : Message)
    → (length (split ":" full) ≡ 2) ⊎ (length (split ":" full) ≡ 3)
    → validate_object_id full missing ≡ returned tt
unfolding validate_object_id
validate_parts full missing h = elim (Bool-cases (contains ":" full)) [
  | inl e ↦ ground (arith, contains-truthy ":" full e)
  | inr e ↦ absurd (ground (arith, split-no_separator ":" full e))
]

-- What an id stands for: a system id that is empty or missing is not written.
abbrev pub written : Option String → Option String
written s = if truthy? s then s else none

module _ (array_type : String) (internal_id uid : Option String)
    (h : contains ":" array_type ≡ false) (p : IsPlain (normalize_utf8_text internal_id))
    (q : IsPlain (normalize_utf8_text uid)) where
  abbrev i : String
  i = normalize_utf8_text internal_id

  abbrev u : String
  u = normalize_utf8_text uid

  -- An id that the servers make of parts without delimiters is read back as those parts, for volumes
  -- and snapshots: the array type, the system id unless it is empty, and both object ids, where a
  -- missing one has become the empty text.
  pub get_object_id_info-get_object_id :
      (system_id : Option String)
      → contains ":" (normalize_utf8_text system_id) ≡ false
      → get_object_id_info (get_object_id array_type internal_id uid system_id) volume
        ≡ returned (record {
          array_type = array_type;
          system_id = written system_id;
          ids = record {
            internal_id = some (normalize_utf8_text internal_id);
            uid = some (normalize_utf8_text uid);
          };
        })
  unfolding get_object_id
  get_object_id_info-get_object_id none k =
      read_id _ array_type (ids_value i u) i u (split-id i u p q array_type h)
        (split-ids_value i u p q)
  get_object_id_info-get_object_id (some s) k = elim (Bool-cases (truthy s)) [
    | inl e ↦ rw e (
        read_id_system _ array_type s (ids_value i u) i u (split-id_system i u p q array_type s h k)
          (split-ids_value i u p q))
    | inr e ↦ rw e (
        read_id _ array_type (ids_value i u) i u (split-id i u p q array_type h)
          (split-ids_value i u p q))
  ]

  -- Such an id passes the validation that the servers make before they read it.
  validate_object_id-get_object_id :
      (system_id : Option String) (missing : Message)
      → contains ":" (normalize_utf8_text system_id) ≡ false
      → validate_object_id (get_object_id array_type internal_id uid system_id) missing
        ≡ returned tt
  unfolding get_object_id
  validate_object_id-get_object_id none missing k =
      validate_parts _ missing (inl (ap length (split-id i u p q array_type h)))
  validate_object_id-get_object_id (some s) missing k = elim (Bool-cases (truthy s)) [
    | inl e ↦
        rw e (validate_parts _ missing (inr (ap length (split-id_system i u p q array_type s h k))))
    | inr e ↦ rw e (validate_parts _ missing (inl (ap length (split-id i u p q array_type h))))
  ]

-- The length of an id that names its storage system.
pub str_length-get_object_id :
    (array_type system_id internal_id uid : String)
    → truthy system_id ≡ true
    → str_length (get_object_id array_type (some internal_id) (some uid) (some system_id))
      ≡ str_length array_type + str_length system_id + str_length internal_id + str_length uid + 3
unfolding get_object_id join
str_length-get_object_id array_type system_id internal_id uid e = rw e (
    omega (
      arith,
      str_length-append array_type (":" ++ (system_id ++ (":" ++ (internal_id ++ (";" ++ uid))))),
      str_length-append ":" (system_id ++ (":" ++ (internal_id ++ (";" ++ uid)))),
      str_length-append system_id (":" ++ (internal_id ++ (";" ++ uid))),
      str_length-append ":" (internal_id ++ (";" ++ uid)),
      str_length-append internal_id (";" ++ uid),
      str_length-append ";" uid,
    ))
