-- ===== src/Arrays/Ds8k/Lookup.antt =====
-- controllers/array_action/array_mediator_ds8k.py: what the search by name gives, whatever the cache says.
use ibm_block_csi_driver.Prelude.{
  ◌≡◌, ap, subst, sym, inl, inr, true, Bool-cases, Option, none, some, String, List, [], ◌∷◌, ◌==◌,
  ◌∙◌, eq_iff, arith,
}
use ibm_block_csi_driver.Outcome.{returned}
use ibm_block_csi_driver.Exec.{Exec, >>=-returned}
use ibm_block_csi_driver.Arrays.Mediator.{Volume}
use ibm_block_csi_driver.Arrays.VolumeCache
use ibm_block_csi_driver.Arrays.VolumeCache.{Cache}
use ibm_block_csi_driver.Arrays.Ds8k.{
  ApiVolume, Ds8kTypes, Ds8kClient, except_client, generate_volume_response,
}
use ibm_block_csi_driver.Arrays.Ds8k.Volumes.{
  on_array, cached_volume, checked, answered, with_flashcopies, get_api_volume_by_name,
  get_api_volume_from_volumes, get_api_volume_with_cache, get_volume, pool_error,
}

-- A call on the array that returns does so whatever the cache holds.
on_array-returned :
    {S A : Type 0} (m : Exec S A) (s : S) (cache : Cache) (a : A) (t : S × Cache)
    → on_array m (s, cache) ≡ (returned a, t)
    → (s' : S) × (m s ≡ (returned a, s'))
on_array-returned m s cache a t h = ((m s).1, λ i. ((h i).0, (m s).1))

module _ {S : Type 0} (client : Ds8kClient S) (name : String) where
  abbrev IsNamed : ApiVolume → Type 0
  IsNamed v = (v.name == name) ≡ true

  with_flashcopies-IsNamed :
      (w v : ApiVolume) (s t : S)
      → IsNamed w
      → with_flashcopies client w s ≡ (returned (some v), t)
      → IsNamed v
  unfolding with_flashcopies
  with_flashcopies-IsNamed w v s t e h =
      let (fs, s1, got, kept) =
        >>=-returned (client.get_flashcopies_by_volume w.id)
          (λ gs. λ s'. (returned (some (record w { flashcopy = gs })), s')) s t (some v) h in
      let same : w.name ≡ v.name = cc in subst (λ n. (n == name) ≡ true) same e

  -- The search in a list of volumes gives one with the name, or none.
  from_volumes-IsNamed :
      (vs : List ApiVolume) (s t : S) (v : ApiVolume)
      → get_api_volume_from_volumes client vs name s ≡ (returned (some v), t)
      → IsNamed v
  unfolding get_api_volume_from_volumes
  from_volumes-IsNamed [] s t v h = cc
  from_volumes-IsNamed (w ∷ vs) s t v h = elim (Bool-cases (w.name == name)) [
    | inl e ↦ with_flashcopies-IsNamed w v s t e (rw e at h)
    | inr e ↦ from_volumes-IsNamed vs s t v (rw e at h)
  ]

  by_name-IsNamed :
      (pool : Option String) (s t : S) (v : ApiVolume)
      → get_api_volume_by_name client name pool s ≡ (returned (some v), t)
      → IsNamed v
  unfolding get_api_volume_by_name
  by_name-IsNamed none s t v h = cc
  by_name-IsNamed (some pool) s t v h =
      let (vs, s1, got, kept) =
        >>=-returned (except_client (client.get_volumes_by_pool pool) (pool_error client))
          (λ vs. get_api_volume_from_volumes client vs name) s t (some v) h in
      from_volumes-IsNamed vs s1 t v kept

  checked-IsNamed :
      (pool : Option String) (found : Option ApiVolume) (s t : S) (v : ApiVolume)
      → checked client name pool found s ≡ (returned (some v), t)
      → IsNamed v
  unfolding checked
  checked-IsNamed pool none s t v h = by_name-IsNamed pool s t v h
  checked-IsNamed pool (some w) s t v h = elim (Bool-cases (w.name == name)) [
    | inl e ↦
        let same : w.name ≡ v.name = (let k = rw e at h in cc) in
        subst (λ n. (n == name) ≡ true) same e
    | inr e ↦ by_name-IsNamed pool s t v (rw e at h)
  ]

  module _ (address : String) where
    with_cache-IsNamed :
        (pool : Option String) (s : S) (cache : Cache) (v : ApiVolume) (t : S × Cache)
        → get_api_volume_with_cache client address name pool (s, cache) ≡ (returned (some v), t)
        → IsNamed v
    unfolding get_api_volume_with_cache
    with_cache-IsNamed pool s cache v t h =
        let (found, t1, got, kept) =
          >>=-returned (on_array (cached_volume client (VolumeCache.get address name cache).0))
            (λ found. on_array (checked client name pool found))
            (s, (VolumeCache.get address name cache).1) t (some v) h in
        let (s', done) =
          on_array-returned (checked client name pool found) t1.0 t1.1 (some v) t kept in
        checked-IsNamed pool found t1.0 s' v done

    module _ (types : Ds8kTypes) (wwnn : String) where
      response-name :
          (v : ApiVolume) (u : Volume)
          → generate_volume_response types address wwnn v ≡ returned u
          → v.name ≡ u.name
      unfolding generate_volume_response
      response-name v u h = ground arith

      named_answer :
          (pool : Option String) (s : S) (cache : Cache) (found : Option ApiVolume)
          (t1 t : S × Cache) (u : Volume)
          → get_api_volume_with_cache client address name pool (s, cache) ≡ (returned found, t1)
          → answered client address types wwnn found t1 ≡ (returned u, t)
          → u.name ≡ name
      unfolding answered
      named_answer pool s cache none t1 t u got kept = cc
      named_answer pool s cache (some v) t1 t u got kept =
          sym (response-name v u (ap (λ p. p.0) kept))
          ∙ (eq_iff v.name name).0 (with_cache-IsNamed pool s cache v t1 got)

      -- A volume that is found by its name has that name, whatever ids the cache holds.
      pub get_volume-named :
          (pool : Option String) (s : S) (cache : Cache) (u : Volume) (t : S × Cache)
          → get_volume client address types wwnn name pool (s, cache) ≡ (returned u, t)
          → u.name ≡ name
      unfolding get_volume
      get_volume-named pool s cache u t h =
          let (found, t1, got, kept) =
            >>=-returned (get_api_volume_with_cache client address name pool)
              (answered client address types wwnn) (s, cache) t u h in
          named_answer pool s cache found t1 t u got kept
