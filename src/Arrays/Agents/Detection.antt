-- ===== src/Arrays/Agents/Detection.antt =====
-- controllers/array_action/storage_agent.py: what the detection of a type answers, and what its cache
-- holds.
use ibm_block_csi_driver.Prelude.{
  ℕ, ◌≡◌, refl, sym, subst, inl, inr, Bool, true, false, ◌&&◌, ◌||◌, Option, none, some,
  Option-cases, Bool-cases, String, List, [], ◌∷◌, Dict, lookup, All, any, elem, insert,
  lookup-insert, truthy, ◌==◌, eq_iff, arith,
}
use ibm_block_csi_driver.Errors.{Exception}
use ibm_block_csi_driver.Outcome.{Outcome, returned, raised}
use ibm_block_csi_driver.Arrays.Agents.{
  get_array_type_from_cache, first_endpoint, first_port, first_type, detect_array_type, remember,
}

module _ (answers : String → ℕ → Bool) where
  -- The endpoint answers on a port of the type.
  abbrev pub serves : List (String × List ℕ) → String → String → Bool
  serves [] t e = false
  serves ((u, ports) ∷ more) t e = (u == t && any (answers e) ports) || serves more t e

  first_endpoint-answers :
      (p : ℕ) (es : List String) (e : String)
      → first_endpoint answers p es ≡ some e
      → (elem e es ≡ true) × (answers e p ≡ true)
  unfolding first_endpoint
  first_endpoint-answers p [] e h = cc
  first_endpoint-answers p (x ∷ es) e h = ground (arith, eq_iff x e, first_endpoint-answers p es e)

  first_port-any :
      (ps : List ℕ) (es : List String) (e : String)
      → first_port answers ps es ≡ some e
      → (elem e es ≡ true) × (any (answers e) ps ≡ true)
  unfolding first_port
  first_port-any [] es e h = cc
  first_port-any (p ∷ ps) es e h = elim (Option-cases (first_endpoint answers p es)) [
    | inl n ↦ ground (arith, first_port-any ps es e)
    | inr (x, q) ↦ ground (arith, first_endpoint-answers p es x q)
  ]

  first_type-serves :
      (types : List (String × List ℕ)) (es : List String) (t e : String)
      → first_type answers types es ≡ some (t, e)
      → (elem e es ≡ true) × (serves types t e ≡ true)
  unfolding first_type
  first_type-serves [] es t e h = cc
  first_type-serves ((u, ports) ∷ more) es t e h =
      elim (Option-cases (first_port answers ports es)) [
        | inl n ↦ ground (arith, first_type-serves more es t e)
        | inr (x, q) ↦ ground (arith, eq_iff u t, first_port-any ports es x q)
      ]

  -- What the cache says is true: the endpoint serves the type that it is kept with.
  abbrev pub CacheIsTrue : List (String × List ℕ) → Dict String → Type 0
  CacheIsTrue types = All (λ c. serves types (c.1) (c.0) ≡ true)

  insert-All :
      (types : List (String × List ℕ)) (e t : String) (cache : Dict String)
      → serves types t e ≡ true
      → CacheIsTrue types cache
      → CacheIsTrue types (insert e t cache)
  unfolding insert
  insert-All types e t [] h k = (h, tt)
  insert-All types e t ((j, w) ∷ cache) h k = elim (Bool-cases (j == e)) [
    | inl same ↦ rw same (subst (λ x. serves types t x ≡ true) (sym ((eq_iff j e).0 same)) h, k.1)
    | inr other ↦ rw other (k.0, insert-All types e t cache h k.1)
  ]

  lookup-serves :
      (types : List (String × List ℕ)) (e t : String) (cache : Dict String)
      → CacheIsTrue types cache
      → lookup e cache ≡ some t
      → serves types t e ≡ true
  lookup-serves types e t [] k h = cc
  lookup-serves types e t ((j, w) ∷ cache) k h = elim (Bool-cases (j == e)) [
    | inl same ↦ ground (arith, k.0, eq_iff j e)
    | inr other ↦ lookup-serves types e t cache k.1 (rw other at h)
  ]

  get-any :
      (types : List (String × List ℕ)) (es : List String) (t : String) (cache : Dict String)
      → CacheIsTrue types cache
      → get_array_type_from_cache es cache ≡ some t
      → any (serves types t) es ≡ true
  unfolding get_array_type_from_cache
  get-any types [] t cache k h = cc
  get-any types (e ∷ es) t cache k h = elim (Option-cases (lookup e cache)) [
    | inl n ↦ ground (arith, get-any types es t cache)
    | inr (u, q) ↦ elim (Bool-cases (truthy u)) [
      | inl some_type ↦ ground (arith, lookup-serves types e u cache k q)
      | inr no_type ↦ ground (arith, get-any types es t cache)
    ]
  ]

  elem-any :
      (p : String → Bool) (e : String) (es : List String)
      → elem e es ≡ true
      → p e ≡ true
      → any p es ≡ true
  elem-any p e [] h k = cc
  elem-any p e (x ∷ es) h k = elim (Bool-cases (x == e)) [
    | inl same ↦ ground (arith, subst (λ y. p y ≡ true) (sym ((eq_iff x e).0 same)) k)
    | inr other ↦ ground (arith, elem-any p e es)
  ]

  first_endpoint-none :
      (p : ℕ) (es : List String) (e : String)
      → first_endpoint answers p es ≡ none
      → elem e es ≡ true
      → answers e p ≡ false
  unfolding first_endpoint
  first_endpoint-none p [] e h k = cc
  first_endpoint-none p (x ∷ es) e h k = ground (arith, eq_iff x e, first_endpoint-none p es e)

  first_port-none :
      (ps : List ℕ) (es : List String) (e : String)
      → first_port answers ps es ≡ none
      → elem e es ≡ true
      → any (answers e) ps ≡ false
  unfolding first_port
  first_port-none [] es e h k = refl
  first_port-none (p ∷ ps) es e h k = elim (Option-cases (first_endpoint answers p es)) [
    | inl n ↦ ground (arith, first_endpoint-none p es e n k, first_port-none ps es e)
    | inr (x, q) ↦ ground arith
  ]

  first_type-none :
      (types : List (String × List ℕ)) (es : List String) (t e : String)
      → first_type answers types es ≡ none
      → elem e es ≡ true
      → serves types t e ≡ false
  unfolding first_type
  first_type-none [] es t e h k = refl
  first_type-none ((u, ports) ∷ more) es t e h k =
      elim (Option-cases (first_port answers ports es)) [
        | inl n ↦ ground (arith, first_port-none ports es e n k, first_type-none more es t e)
        | inr (x, q) ↦ ground arith
      ]

  -- What an outcome of the detection says of the endpoints asked: one of them serves the type, or
  -- none of them serves any.
  abbrev pub Detected : List (String × List ℕ) → List String → Outcome String → Type 0
  Detected types es (returned t) = any (serves types t) es ≡ true
  Detected types es (raised x) =
      (x ≡ Exception.failed_to_find_storage_system_type)
      × ((t e : String) → elem e es ≡ true → serves types t e ≡ false)

  remember-Detected :
      (types : List (String × List ℕ)) (es : List String) (cache : Dict String)
      (found : Option (String × String))
      → CacheIsTrue types cache
      → first_type answers types es ≡ found
      → Detected types es (remember answers found cache).0
        × CacheIsTrue types (remember answers found cache).1
  remember-Detected types es cache none k h = ((refl, λ t e. first_type-none types es t e h), k)
  remember-Detected types es cache (some (t, e)) k h =
      let f = first_type-serves types es t e h in
      (elem-any (serves types t) e es f.0 f.1, insert-All types e t cache f.1 k)

  -- With a cache that is true, a type that is detected is served by one of the endpoints asked, on
  -- one of the type's ports; a failure means that none of them serves any type; and the cache stays true.
  pub detect_array_type-Detected :
      (types : List (String × List ℕ)) (es : List String) (cache : Dict String)
      → CacheIsTrue types cache
      → Detected types es (detect_array_type answers types es cache).0
        × CacheIsTrue types (detect_array_type answers types es cache).1
  unfolding detect_array_type
  detect_array_type-Detected types es cache k =
      elim (Option-cases (get_array_type_from_cache es cache)) [
        | inl n ↦
            rw (n, detect_array_type, Detected)
              (remember-Detected types es cache (first_type answers types es) k refl)
        | inr (t, q) ↦ rw (q, detect_array_type, Detected) (get-any types es t cache k q, k)
      ]

get-insert :
    (es : List String) (e t : String) (cache : Dict String)
    → get_array_type_from_cache es cache ≡ none
    → elem e es ≡ true
    → truthy t ≡ true
    → get_array_type_from_cache es (insert e t cache) ≡ some t
unfolding get_array_type_from_cache
get-insert [] e t cache n h k = cc
get-insert (x ∷ es) e t cache n h k = elim (Bool-cases (e == x)) [
  | inl same ↦ ground (arith, lookup-insert e x t cache)
  | inr other ↦
      ground (arith, lookup-insert e x t cache, eq_iff e x, eq_iff x e, get-insert es e t cache)
]

first_type-truthy :
    (answers : String → ℕ → Bool) (types : List (String × List ℕ)) (es : List String) (t e : String)
    → All (λ c. truthy (c.0) ≡ true) types
    → first_type answers types es ≡ some (t, e)
    → truthy t ≡ true
unfolding first_type
first_type-truthy answers [] es t e k h = cc
first_type-truthy answers ((u, ports) ∷ more) es t e k h =
    ground (arith, first_type-truthy answers more es t e k.1)

remember-get :
    (answers : String → ℕ → Bool) (types : List (String × List ℕ)) (es : List String)
    (cache : Dict String) (found : Option (String × String)) (t : String) (cache' : Dict String)
    → All (λ c. truthy (c.0) ≡ true) types
    → get_array_type_from_cache es cache ≡ none
    → first_type answers types es ≡ found
    → remember answers found cache ≡ (returned t, cache')
    → get_array_type_from_cache es cache' ≡ some t
remember-get answers types es cache none t cache' k n f h = cc
remember-get answers types es cache (some (u, e)) t cache' k n f h =
    let s =
      get-insert es e u cache n (first_type-serves answers types es u e f).0
        (first_type-truthy answers types es u e k f) in
    cc

-- A type once detected stays: for the same endpoints the detection gives it again and leaves the
-- cache as it is, whatever the endpoints answer by then.
detect_array_type-again :
    (before later : String → ℕ → Bool) (types : List (String × List ℕ)) (es : List String)
    (cache cache' : Dict String) (t : String)
    → All (λ c. truthy (c.0) ≡ true) types
    → detect_array_type before types es cache ≡ (returned t, cache')
    → detect_array_type later types es cache' ≡ (returned t, cache')
unfolding detect_array_type
detect_array_type-again before later types es cache cache' t k h =
    elim (Option-cases (get_array_type_from_cache es cache)) [
      | inl n ↦
          ground (
            arith,
            remember-get before types es cache (first_type before types es) t cache' k n refl,
          )
      | inr (u, q) ↦ ground (arith, q)
    ]
