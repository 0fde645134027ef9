-- ===== src/Arrays/VolumeCache.antt =====
-- controllers/array_action/ds8k_volume_cache.py: the volumes known by name, for each array's address. The
-- cache is one dictionary for each address, which comes to be when it is first asked for; each method
-- runs under the lock. No key is kept with the value `None`.
pub mod Refinement
use ibm_block_csi_driver.Prelude.{
  Option, none, some, String, List, [], ◌∷◌, Dict, lookup, lookup_or, insert, erase,
}

-- `self._volume_cache_by_address`
abbrev pub Cache : Type 0
Cache = Dict (Dict String)

-- `self._volume_cache_by_address[address]`, and the cache where it was missing before
abbrev pub entry : String → Cache → Dict String
entry address cache = lookup_or address [] cache

unfoldable pub touch : String → Cache → Cache
touch address cache = insert address (entry address cache) cache

unfoldable pub add : String → String → String → Cache → Cache
add address key value cache = insert address (insert key value (entry address cache)) cache

unfoldable pub remove : String → String → Cache → Cache
unfolding touch
remove address key cache = elim (lookup key (entry address cache)) [
  | none ↦ touch address cache
  | some v ↦ insert address (erase key (entry address cache)) cache
]

unfoldable pub get : String → String → Cache → Option String × Cache
unfolding touch
get address key cache = (lookup key (entry address cache), touch address cache)

unfoldable pub add_or_delete : String → String → String → Cache → Cache
unfolding add
add_or_delete address key value cache = elim (lookup key (entry address cache)) [
  | none ↦ add address key value cache
  | some v ↦ insert address (erase key (entry address cache)) cache
]

-- The methods of `VolumeCache`, which has an address of its own
pub data Call : Type 0 where
  add_call : String → String → Call
  remove_call get_call : String → Call
  add_or_delete_call : String → String → Call

unfoldable pub perform : String → Call → Cache → Option String × Cache
unfolding add remove get add_or_delete
perform address (add_call key value) cache = (none, add address key value cache)
perform address (remove_call key) cache = (none, remove address key cache)
perform address (get_call key) cache = get address key cache
perform address (add_or_delete_call key value) cache = (none, add_or_delete address key value cache)

-- Calls on caches of several addresses, in the order in which they take the lock
unfoldable pub run : List (String × Call) → Cache → List (Option String) × Cache
unfolding perform
run [] cache = ([], cache)
run ((address, call) ∷ calls) cache =
    let (r, c) = perform address call cache in let (rs, last) = run calls c in (r ∷ rs, last)
