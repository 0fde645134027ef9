-- ===== src/Arrays/Svc/Scan.antt =====
-- controllers/array_action/array_mediator_svc.py: the host that the scan of all hosts finds.
use ibm_block_csi_driver.Prelude.{
  ◌≡◌, refl, Bool, true, false, ◌&&◌, Option, none, some, String, List, [], ◌∷◌, any, ◌==◌, ◌⊎◌,
  inl, inr, if◌then◌else◌, eq_refl, subst, arith,
}
use ibm_block_csi_driver.Arrays.Svc.{CliHost}
use ibm_block_csi_driver.Arrays.Svc.HostSearch.{last_match}

abbrev or_head : Bool → String → Option String → Option String
or_head b name o = elim o [ some other ↦ some other | none ↦ if◌then◌else◌ b (some name) none ]

either :
    (b : Bool) (o : Option String) (n name : String)
    → or_head b n o ≡ some name
    → (o ≡ some name) ⊎ ((b ≡ true) × (n ≡ name))
either b (some other) n name e = inl e
either true none n name e = inr (refl, cc)
either false none n name e = cc

-- The name that the loop leaves is that of a host in the list that matches.
last_match-found :
    (p : CliHost → Bool) (hosts : List CliHost) (name : String)
    → last_match p hosts ≡ some name
    → any (λ h. p h && (h.name == name)) hosts ≡ true
unfolding last_match
last_match-found p [] name e = cc
last_match-found p (h ∷ hs) name e = elim (either (p h) (last_match p hs) h.name name e) [
  | inl found ↦ let rest = last_match-found p hs name found in ground arith
  | inr (hit, same) ↦
      let equal = subst (λ n. (h.name == n) ≡ true) same (eq_refl h.name) in ground arith
]

-- Where no name is left, no host matches.
none_left :
    (b : Bool) (o : Option String) (n : String) → or_head b n o ≡ none → (o ≡ none) × (b ≡ false)
none_left b (some other) n e = cc
none_left true none n e = cc
none_left false none n e = (refl, refl)

last_match-none :
    (p : CliHost → Bool) (hosts : List CliHost) → last_match p hosts ≡ none → any p hosts ≡ false
unfolding last_match
last_match-none p [] e = refl
last_match-none p (h ∷ hs) e =
    let (rest, missed) = none_left (p h) (last_match p hs) h.name e in
    let others = last_match-none p hs rest in ground arith
