-- ===== src/Csi/Lock/Membership.antt =====
-- Which ids are in use after one is added to the table or taken out of it.
use ibm_block_csi_driver.Prelude.{
  ◌≡◌, true, false, String, List, [], ◌∷◌, insert, lookup-insert, elem, ◌&&◌, ◌==◌, eq_iff,
  if◌then◌else◌, arith,
}
use ibm_block_csi_driver.Csi.Lock.{
  Locks, ids, in_use, add_to_ids_in_use, remove_from_ids_in_use, discard,
}

elem-discard :
    (x y : String) (xs : List String)
    → elem y (discard x xs) ≡ (if x == y then false else elem y xs)
unfolding discard
elem-discard x y [] = ground arith
elem-discard x y (z ∷ zs) = ground (arith, elem-discard x y zs, eq_iff x y, eq_iff z x, eq_iff z y)

ids-insert :
    (key k : String) (v : List String) (locks : Locks)
    → ids k (insert key v locks) ≡ (if key == k then v else ids k locks)
ids-insert key k v locks = ground (arith, lookup-insert key k v locks)

pub in_use-add :
    (key id k i : String) (locks : Locks)
    → in_use k i (add_to_ids_in_use key id locks)
      ≡ (if key == k && id == i then true else in_use k i locks)
unfolding in_use add_to_ids_in_use
in_use-add key id k i locks =
    rw (ids-insert key k _ locks) (ground (arith, eq_iff key k, eq_iff id i))

pub in_use-remove :
    (key id k i : String) (locks : Locks)
    → in_use k i (remove_from_ids_in_use key id locks)
      ≡ (if key == k && id == i then false else in_use k i locks)
unfolding in_use remove_from_ids_in_use
in_use-remove key id k i locks =
    rw (ids-insert key k _ locks)
      (ground (arith, eq_iff key k, eq_iff id i, elem-discard id i (ids key locks)))
