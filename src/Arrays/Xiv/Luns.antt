-- ===== src/Arrays/Xiv/Luns.antt =====
-- controllers/array_action/array_mediator_xiv.py: the LUN that a volume is mapped at.
use ibm_block_csi_driver.Prelude.{
  ℕ, ◌-◌, ◌≤◌, ◌<◌, ◌≡◌, ◌⊎◌, refl, inl, inr, true, false, Bool-cases, List, [], ◌∷◌, All, length,
  nat_eq, arith,
}
use ibm_block_csi_driver.Prelude.Numbers.{
  mem, span, not_in, AllFree, AllWithin, not_in-AllFree, not_in-AllWithin, span-AllWithin,
  get_elem?-All, not_in-none_left, nat_eq→eq,
}
use ibm_block_csi_driver.Errors.{Exception}
use ibm_block_csi_driver.Outcome.{returned, raised}
use ibm_block_csi_driver.Arrays.Xiv.{XcliClient}
use ibm_block_csi_driver.Arrays.Xiv.Hosts.{available_luns, draw_lun}

abbrev pub IsGood : List ℕ → ℕ → Type 0
IsGood used n = (mem n used ≡ false) × (1 ≤ n) × (n < 251)

both : (used ns : List ℕ) → AllFree used ns → AllWithin 1 251 ns → All (IsGood used) ns
both used [] f w = tt
both used (n ∷ ns) f w = ((f.0, w.0.0, w.0.1), both used ns f.1 w.1)

available_luns-IsGood : (used : List ℕ) → All (IsGood used) (available_luns used)
unfolding available_luns
available_luns-IsGood used =
    both used (not_in used (span 1 250)) (not_in-AllFree used (span 1 250))
      (not_in-AllWithin used (span 1 250) 1 251 (span-AllWithin 1 250 251 refl))

no_length : (ns : List ℕ) → length ns ≡ 0 → ns ≡ []
no_length [] h = refl
no_length (n ∷ ns) h = absurd (omega arith)

module _ {S : Type 0} (client : XcliClient S) (randint : ℕ → ℕ → ℕ)
    (fair : (low high : ℕ) → low ≤ high → (low ≤ randint low high) × (randint low high ≤ high))
    (used : List ℕ) (s : S) where
  every_used :
      nat_eq (length (available_luns used)) 0 ≡ true → All (λ n. mem n used ≡ true) (span 1 250)
  unfolding available_luns
  every_used none_left = not_in-none_left used (span 1 250) (
      no_length (not_in used (span 1 250))
        (nat_eq→eq (length (not_in used (span 1 250))) 0 none_left))

  in_range :
      nat_eq (length (available_luns used)) 0 ≡ false
      → randint 0 (length (available_luns used) - 1) < length (available_luns used)
  in_range some_left = ground (arith, fair 0 (length (available_luns used) - 1))

  -- A LUN is drawn exactly where one of 1 to 250 is free: it is in this range and the host does not use it.
  -- Otherwise all are in use, and NoAvailableLunError says so.
  pub draw_lun-in_range :
      ((lun : ℕ) × (draw_lun client randint used s ≡ (returned lun, s)) × IsGood used lun)
      ⊎ ((draw_lun client randint used s ≡ (raised Exception.no_available_lun, s))
          × All (λ n. mem n used ≡ true) (span 1 250))
  unfolding draw_lun
  draw_lun-in_range =
      let free = available_luns used in
      elim (Bool-cases (nat_eq (length free) 0)) [
        | inl none_left ↦ inr (rw none_left, every_used none_left)
        | inr some_left ↦
            let (lun, got, good) =
              get_elem?-All (IsGood used) free (randint 0 (length free - 1)) (in_range some_left)
                (available_luns-IsGood used) in
            inl (lun, ground (arith, got), good)
      ]
