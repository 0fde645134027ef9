-- ===== src/Arrays/VolumeCache/Refinement.antt =====
-- controllers/array_action/ds8k_volume_cache.py: what the caches promise, as one map from addresses and
-- keys to values, and that they keep it.
use ibm_block_csi_driver.Prelude.{
  ◌≡◌, refl, ap, ◌∙◌, fun_ext, ◌&&◌, Option-cases, inl, inr, Option, none, some, String, List, [],
  ◌∷◌, Dict, lookup, lookup-insert, lookup-erase, insert, erase, ◌==◌, eq_iff, if◌then◌else◌, arith,
}
use ibm_block_csi_driver.Arrays.VolumeCache.{
  Cache, entry, touch, add, remove, add_or_delete, Call, add_call, remove_call, get_call,
  add_or_delete_call, perform, run,
}

-- The abstract cache: what is known under an address and a key.
abbrev pub Known : Type 0
Known = String → String → Option String

abbrev pub known : Cache → Known
known cache address key = lookup key (entry address cache)

-- One place of the map is written.
abbrev pub set : String → String → Option String → Known → Known
set address key v k = λ a j. if address == a && key == j then v else k a j

abbrev toggled : Option String → String → Option String
toggled none value = some value
toggled (some v) value = none

-- What a call does to the abstract cache: it is the map's read and write, and `add_or_delete` is a
-- switch.
abbrev pub specified : String → Call → Known → Option String × Known
specified address (add_call key value) k = (none, set address key (some value) k)
specified address (remove_call key) k = (none, set address key none k)
specified address (get_call key) k = (k address key, k)
specified address (add_or_delete_call key value) k =
    (none, set address key (toggled (k address key) value) k)

abbrev pub specified_run : List (String × Call) → Known → List (Option String) × Known
specified_run [] k = ([], k)
specified_run ((address, call) ∷ calls) k =
    let (r, k') = specified address call k in
    let (rs, last) = specified_run calls k' in (r ∷ rs, last)

entry-insert :
    (address a : String) (d : Dict String) (cache : Cache)
    → entry a (insert address d cache) ≡ (if address == a then d else entry a cache)
entry-insert address a d cache = ground (arith, lookup-insert address a d cache)

module _ (address a key j : String) (cache : Cache) where
  known-insert :
      (d : Dict String) (v : Option String)
      → ((i : String) → lookup i d ≡ (if key == i then v else lookup i (entry address cache)))
      → known (insert address d cache) a j ≡ set address key v (known cache) a j
  known-insert d v h = ground (arith, entry-insert address a d cache, h j, eq_iff address a)

  known-add :
      (v : String)
      → known (add address key v cache) a j ≡ set address key (some v) (known cache) a j
  unfolding add
  known-add v =
      known-insert (insert key v (entry address cache)) (some v)
        (λ i. lookup-insert key i v (entry address cache))

  known-erase :
      known (insert address (erase key (entry address cache)) cache) a j
      ≡ set address key none (known cache) a j
  known-erase =
      known-insert (erase key (entry address cache)) none
        (λ i. lookup-erase key i (entry address cache))

  known-touch : known (touch address cache) a j ≡ known cache a j
  unfolding touch
  known-touch = ground (arith, entry-insert address a (entry address cache) cache, eq_iff address a)

  -- A key that is not known stays so.
  set-none :
      lookup key (entry address cache) ≡ none
      → known cache a j ≡ set address key none (known cache) a j
  set-none h = ground (arith, h, eq_iff address a, eq_iff key j)

  known-remove : known (remove address key cache) a j ≡ set address key none (known cache) a j
  unfolding remove
  known-remove = elim (Option-cases (lookup key (entry address cache))) [
    | inl n ↦ rw (n, remove) (known-touch ∙ set-none n)
    | inr (v, e) ↦ rw (e, remove) known-erase
  ]

  known-add_or_delete :
      (v : String)
      → known (add_or_delete address key v cache) a j
        ≡ set address key (toggled (known cache address key) v) (known cache) a j
  unfolding add_or_delete
  known-add_or_delete v = elim (Option-cases (lookup key (entry address cache))) [
    | inl n ↦ rw (n, add_or_delete) (known-add v)
    | inr (w, e) ↦ rw (e, add_or_delete) known-erase
  ]

same_known : (f g : Known) → ((a j : String) → f a j ≡ g a j) → f ≡ g
same_known f g h = fun_ext (λ a. fun_ext (λ j. h a j))

-- One call on the cache is the call on the map.
perform-known :
    (address : String) (call : Call) (cache : Cache)
    → ((perform address call cache).0, known (perform address call cache).1)
      ≡ specified address call (known cache)
unfolding perform
perform-known address (add_call key v) cache =
    ap (λ k. (none, k)) (same_known _ _ (λ a j. known-add address a key j cache v))
perform-known address (remove_call key) cache =
    ap (λ k. (none, k)) (same_known _ _ (λ a j. known-remove address a key j cache))
perform-known address (get_call key) cache =
    ap (λ k. (known cache address key, k))
      (same_known _ _ (λ a j. known-touch address a key j cache))
perform-known address (add_or_delete_call key v) cache =
    ap (λ k. (none, k)) (same_known _ _ (λ a j. known-add_or_delete address a key j cache v))

-- Calls of any number of caches with addresses of their own, in any order, give what one map from
-- addresses and keys gives, and leave what it leaves.
pub run-specified :
    (calls : List (String × Call)) (cache : Cache)
    → ((run calls cache).0, known (run calls cache).1) ≡ specified_run calls (known cache)
unfolding run
run-specified [] cache = refl
run-specified ((address, call) ∷ calls) cache =
    let step = perform-known address call cache in
    let rest = run-specified calls (perform address call cache).1 in
    ap (λ q. ((perform address call cache).0 ∷ q.0, q.1)) rest
    ∙ ap (λ q. (q.0 ∷ (specified_run calls (q.1)).0, (specified_run calls (q.1)).1)) step
