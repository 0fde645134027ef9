-- ===== src/Arrays/Mapping/Rollback.antt =====
-- A copy that fails takes the new volume away again.
use ibm_block_csi_driver.Prelude.{
  zero, suc, ◌+◌, refl, ap, ◌∙◌, ◌≡◌, Option, none, some, String, ℕ, false, arith,
}
use ibm_block_csi_driver.Errors.{Exception}
use ibm_block_csi_driver.Outcome.{returned, raised}
use ibm_block_csi_driver.Requests.Ids.{ObjectType}
use ibm_block_csi_driver.Arrays.Mediator.{ArrayMediator}
use ibm_block_csi_driver.Arrays.Mapping.{
  Retry, any_exception, rollback, copy_from_source, copy_to_existing_volume_from_source,
}

module _ {S : Type 0} (retry : Retry S) (m : ArrayMediator S) (id : Option String) (source : String)
    (type : Option ObjectType) (size : ℕ) where
  rolled_back :
      (s t : S)
      → m.delete_volume id none s ≡ (returned tt, t)
      → rollback retry m id s ≡ (returned tt, t)
  unfolding rollback
  rolled_back s t h = retry.call-returned (Unit {0}) any_exception 4 _ s t tt h

  -- Where copying raises, the volume is deleted, and the exception of
  -- the copy is raised again.
  copy-fails :
      (e : Exception) (s t u : S)
      → copy_from_source retry m id source type size s ≡ (raised e, t)
      → m.delete_volume id none t ≡ (returned tt, u)
      → copy_to_existing_volume_from_source retry m id source type size s ≡ (raised e, u)
  unfolding copy_to_existing_volume_from_source
  copy-fails e s t u failed deleted = ground (arith, rolled_back t u deleted)

  module _ (at : ℕ → S)
      (gone : (k : ℕ)
        → m.delete_volume id none (at k) ≡ (raised Exception.object_not_found, at (suc k))) where
    retried :
        (n k : ℕ)
        → retry.call any_exception (suc n) (m.delete_volume id none) (at k)
          ≡ (raised Exception.object_not_found, at (suc n + k))
    retried zero k =
        retry.call-last (Unit {0}) any_exception _ (at k) (at (suc k)) _ (gone k)
        ∙ ap (λ j. (raised Exception.object_not_found, at j)) (omega arith)
    retried (suc n) k =
        retry.call-again (Unit {0}) any_exception n _ (at k) (at (suc k)) _ (gone k) refl
        ∙ retried n (suc k)
        ∙ ap (λ j. (raised Exception.object_not_found, at j)) (omega arith)

    again : rollback retry m id (at 0) ≡ (raised Exception.object_not_found, at 5)
    unfolding rollback
    again = retried 4 0

    -- Where the source is not there the volume is deleted by a first rollback, inside the `try` whose
    -- handler rolls back again: where the array then says that there is no such volume, its deletion is
    -- tried five times more before ObjectNotFoundError is raised.
    pub copy-missing_source :
        (s t : S)
        → m.get_object_by_id (some source) type false s ≡ (returned none, t)
        → m.delete_volume id none t ≡ (returned tt, at 0)
        → copy_to_existing_volume_from_source retry m id source type size s
          ≡ (raised Exception.object_not_found, at 5)
    unfolding copy_to_existing_volume_from_source copy_from_source
    copy-missing_source s t missing deleted = ground (arith, rolled_back t (at 0) deleted, again)
