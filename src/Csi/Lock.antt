-- ===== src/Csi/Lock.antt =====
-- controllers/servers/csi/sync_lock.py and controllers/servers/csi/decorators.py: the table of the ids
-- in use, and the wrapper of each RPC.
mod Membership
pub mod Wrapper
pub mod Exclusion
use ibm_block_csi_driver.Prelude.{
  Bool, String, List, [], ◌∷◌, Dict, lookup_or, insert, elem, truthy, ◌==◌, if◌then◌else◌,
}
use ibm_block_csi_driver.Errors.{Exception}
use ibm_block_csi_driver.Outcome.{Outcome, returned, raised}
use ibm_block_csi_driver.Exec.{Exec, pure, lift, attempt, ◌>>=◌, ◌>>◌}
use ibm_block_csi_driver.Csi.Status.{
  Reply, ResponseType, StatusCode, handle_exception, handle_common_exceptions,
}

-- `ids_in_use`: a `defaultdict(set)`; a set is the list of its elements.
abbrev pub Locks : Type 0
Locks = Dict (List String)

abbrev pub ids : String → Locks → List String
ids key locks = lookup_or key [] locks

-- `object_id in ids_in_use[lock_key]`
unfoldable pub in_use : String → String → Locks → Bool
in_use key id locks = elem id (ids key locks)

unfoldable pub add_to_ids_in_use : String → String → Locks → Locks
add_to_ids_in_use key id locks =
    insert key (if elem id (ids key locks) then ids key locks else id ∷ ids key locks) locks

pub discard : String → List String → List String
discard x [] = []
discard x (y ∷ ys) = let rest = discard x ys in if y == x then rest else y ∷ rest

-- Releasing an id that is not there only logs an error.
unfoldable pub remove_from_ids_in_use : String → String → Locks → Locks
remove_from_ids_in_use key id locks = insert key (discard id (ids key locks)) locks

-- The process: the locks, and all else that the handlers change.
pub record Process (S : Type 0) : Type 0 where
  pub locks : Locks
  pub arrays : S

module _ {S : Type 0} where
  unfoldable pub add_object_lock : String → String → Exec (Process S) (Unit {0})
  add_object_lock key id p =
      if in_use key id p.locks
      then (raised Exception.object_already_processing, p)
      else (returned tt, record p { locks = add_to_ids_in_use key id p.locks })

  unfoldable pub remove_object_lock : String → String → Exec (Process S) (Unit {0})
  remove_object_lock key id p =
      (returned tt, record p { locks = remove_from_ids_in_use key id p.locks })

  -- `__enter__` and `__exit__`: a call with no lock attribute takes no lock.
  unfoldable pub enter : String → String → Exec (Process S) (Unit {0})
  unfolding add_object_lock
  enter key id = if truthy key then add_object_lock key id else pure tt

  unfoldable pub exit : String → String → Exec (Process S) (Unit {0})
  unfolding remove_object_lock
  exit key id = if truthy key then remove_object_lock key id else pure tt

module _ {S A : Type 0} where
  -- A handler touches the arrays, not the locks.
  abbrev pub on_arrays : Exec S A → Exec (Process S) A
  on_arrays m p = let (r, s) = m p.arrays in (r, record p { arrays = s })

  -- `with SyncLock(key, id, …): m`
  unfoldable pub with_sync_lock : String → String → Exec (Process S) A → Exec (Process S) A
  with_sync_lock key id m = do enter key id; r ← attempt m; exit key id; lift r

module _ {S B : Type 0} where
  refused : ResponseType → Outcome (Reply B) → Exec (Process S) (Reply B)
  refused t (raised Exception.object_already_processing) =
      pure (handle_exception Exception.object_already_processing StatusCode.aborted t)
  refused t r = lift r

  -- `csi_method`: lock the object, run the handler with its exceptions caught, unlock; a call for an
  -- object in use is ABORTED.
  unfoldable pub csi_method :
      String → String → ResponseType → Exec S (Reply B) → Exec (Process S) (Reply B)
  unfolding refused with_sync_lock
  csi_method key id t handler = do
    r ← attempt (with_sync_lock key id (handle_common_exceptions (on_arrays handler) t))
    refused t r
