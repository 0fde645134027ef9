-- ===== src/Csi/Lock/Wrapper.antt =====
-- What `csi_method` promises for one call.
use ibm_block_csi_driver.Prelude.{◌≡◌, ap, true, false, String, eq_iff, arith, truthy}
use ibm_block_csi_driver.Errors.{Exception}
use ibm_block_csi_driver.Outcome.{returned}
use ibm_block_csi_driver.Exec.{Exec}
use ibm_block_csi_driver.Csi.Status.{
  Reply, ResponseType, StatusCode, answer, handle_exception, handle_common_exceptions-returns,
}
use ibm_block_csi_driver.Csi.Lock.{
  Locks, Process, in_use, enter, exit, add_to_ids_in_use, remove_from_ids_in_use, csi_method,
  on_arrays,
}
use ibm_block_csi_driver.Csi.Lock.Membership.{in_use-add, in_use-remove}

-- Taking an id that was free, and releasing it, leaves the same ids in use.
released :
    (key id k i : String) (locks : Locks)
    → in_use key id locks ≡ false
    → in_use k i (remove_from_ids_in_use key id (add_to_ids_in_use key id locks)) ≡ in_use k i locks
released key id k i locks free =
    rw (in_use-remove key id k i _, in_use-add key id k i locks)
      (ground (arith, eq_iff key k, eq_iff id i))

module _ {S B : Type 0} (key id : String) (t : ResponseType) (handler : Exec S (Reply B)) where
  abbrev after_call : Process S → Process S
  after_call p = record {
    locks = remove_from_ids_in_use key id (add_to_ids_in_use key id p.locks);
    arrays = (handler p.arrays).1;
  }

  csi_method-free :
      (p : Process S)
      → truthy key ≡ true
      → in_use key id p.locks ≡ false
      → csi_method key id t handler p ≡ (returned (answer t (handler p.arrays).0), after_call p)
  unfolding csi_method enter exit
  csi_method-free p h free = ground (
    arith,
    handle_common_exceptions-returns (on_arrays handler) t
        (record p { locks = add_to_ids_in_use key id p.locks }),
  )

  -- A call for an object that is not in use runs its handler once and always returns: with the
  -- handler's reply, or with the code of the exception that it raised. Afterwards the same objects
  -- are in use as before, whether the handler returned or raised.
  pub csi_method-releases :
      (p : Process S)
      → truthy key ≡ true
      → in_use key id p.locks ≡ false
      → ((csi_method key id t handler p).0 ≡ returned (answer t (handler p.arrays).0))
        × ((csi_method key id t handler p).1.arrays ≡ (handler p.arrays).1)
        × ((k i : String) → in_use k i (csi_method key id t handler p).1.locks ≡ in_use k i p.locks)
  csi_method-releases p h free =
      let e = csi_method-free p h free in
      (ap (λ r. r.0) e, ap (λ r. r.1.arrays) e, λ k i. rw e (released key id k i p.locks free))

  -- A call for an object that is in use is answered ABORTED with no body, and nothing is changed:
  -- the handler does not run.
  csi_method-in_use :
      (p : Process S)
      → truthy key ≡ true
      → in_use key id p.locks ≡ true
      → csi_method key id t handler p
        ≡ (returned (handle_exception Exception.object_already_processing StatusCode.aborted t), p)
  unfolding csi_method enter
  csi_method-in_use p h used = ground arith
