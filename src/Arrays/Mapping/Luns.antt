-- ===== src/Arrays/Mapping/Luns.antt =====
-- Trying again with another LUN: how often, and with what result.
use ibm_block_csi_driver.Prelude.{ℕ, zero, suc, ◌-◌, ◌<◌, ◌≡◌, refl, String, arith}
use ibm_block_csi_driver.Errors.{Exception}
use ibm_block_csi_driver.Outcome.{returned, raised}
use ibm_block_csi_driver.Exec.{Exec}
use ibm_block_csi_driver.Arrays.Mediator.{ArrayMediator}
use ibm_block_csi_driver.Arrays.Mapping.{retry_luns, map_with_retries}

-- `Collides map_once k s t`: from `s`, `k` tries in a row find their LUN in use, and end in `t`.
pub data Collides {S : Type 0} (try_map : Exec S String) : ℕ → S → S → Type 0 where
  no_collision : {s : S} → Collides try_map 0 s s
  collision :
      {k : ℕ} {s t u : S}
      → try_map s ≡ (raised Exception.lun_already_in_use, t)
      → Collides try_map k t u
      → Collides try_map (suc k) s u

module _ {S : Type 0} (m : ArrayMediator S) (try_map : Exec S String) where
  retried :
      (n k : ℕ) (s t u : S) (lun : String)
      → Collides try_map k s t
      → k < n
      → try_map t ≡ (returned lun, u)
      → retry_luns m n try_map s ≡ (returned lun, u)
  unfolding retry_luns
  retried zero k s t u lun c lt h = ground arith
  retried (suc n) zero s _ u lun no_collision lt h = ground arith
  retried (suc n) (suc k) s t u lun (collision failed c) lt h =
      let rest = retried n k _ t u lun c (omega arith) h in ground arith

  exhausted :
      (n : ℕ) (s t : S)
      → Collides try_map n s t
      → retry_luns m n try_map s ≡ (raised Exception.lun_already_in_use, t)
  unfolding retry_luns
  exhausted zero s _ no_collision = refl
  exhausted (suc n) s t (collision failed c) = let rest = exhausted n _ t c in ground arith

  -- Where at most the mediator's number of tries less one find their LUN in use, and the next one maps
  -- the volume, the call returns the LUN of that try.
  pub map_with_retries-returns :
      (k : ℕ) (s t u : S) (lun : String)
      → Collides try_map k s t
      → k < m.max_lun_retries
      → try_map t ≡ (returned lun, u)
      → map_with_retries m try_map s ≡ (returned lun, u)
  unfolding map_with_retries
  map_with_retries-returns zero s _ u lun no_collision lt h = ground arith
  map_with_retries-returns (suc k) s t u lun (collision failed c) lt h =
      let rest = retried (m.max_lun_retries - 1) k _ t u lun c (omega arith) h in ground arith

  -- Where each of the mediator's number of tries, one or more, finds its LUN in use, the call raises
  -- LunAlreadyInUseError after exactly that many.
  map_with_retries-gives_up :
      (n : ℕ) (s t : S)
      → m.max_lun_retries ≡ suc n
      → Collides try_map (suc n) s t
      → map_with_retries m try_map s ≡ (raised Exception.lun_already_in_use, t)
  unfolding map_with_retries
  map_with_retries-gives_up n s t tries (collision failed c) =
      let rest = exhausted n _ t c in ground arith
