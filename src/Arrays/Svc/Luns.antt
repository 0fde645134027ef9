-- ===== src/Arrays/Svc/Luns.antt =====
-- controllers/array_action/array_mediator_svc.py: the LUN that a volume is mapped at.
use ibm_block_csi_driver.Prelude.{
  ℕ, zero, suc, ◌+◌, ◌≤◌, ◌<◌, ◌≡◌, refl, ap, sym, subst, ◌∙◌, inl, inr, true, false, Bool-cases,
  String, List, [], ◌∷◌, elem, is_empty, ◌==◌, eq_iff, arith,
}
use ibm_block_csi_driver.Prelude.Numbers.{range}
use ibm_block_csi_driver.Prelude.Digits.{read, print, read-print}
use ibm_block_csi_driver.Outcome.{Outcome, returned, raised}
use ibm_block_csi_driver.Arrays.Svc.Hosts.{
  max_of, take, lun_limit, add_number, numbers_of, free_luns, draw_below, draw_lun,
}

le-max_of :
    (n m : ℕ) (ns : List ℕ) → (n ≤ m → n ≤ max_of (m ∷ ns)) × (n ≤ max_of ns → n ≤ max_of (m ∷ ns))
unfolding max_of
le-max_of n m ns = ((λ h. ground arith), (λ h. ground arith))

-- A LUN in use is written for a number that is at most the greatest.
abbrev Small : String → List ℕ → Type 0
Small lun ns = (n : ℕ) × (read 10 lun ≡ returned n) × (n ≤ max_of ns)

used-Small :
    (lun x : String) (luns : List String) (o : Outcome ℕ) (p : Outcome (List ℕ)) (ns : List ℕ)
    → read 10 x ≡ o
    → numbers_of luns ≡ p
    → add_number o p ≡ returned ns
    → elem lun (x ∷ luns) ≡ true
    → ((ms : List ℕ) → numbers_of luns ≡ returned ms → elem lun luns ≡ true → Small lun ms)
    → Small lun ns
used-Small lun x luns (raised e) p ns r q h u next = cc
used-Small lun x luns (returned n) (raised e) ns r q h u next = cc
used-Small lun x luns (returned n) (returned ms) ns r q h u next =
    let same : n ∷ ms ≡ ns = cc in
    subst (Small lun) same (elim (Bool-cases (x == lun)) [
      | inl e ↦ (n, ap (read 10) (sym ((eq_iff x lun).0 e)) ∙ r, (le-max_of n n ms).0 (omega arith))
      | inr e ↦
          let (k, known, small) = next ms q (rw e at u) in (k, known, (le-max_of k n ms).1 small)
    ])

elem-Small :
    (lun : String) (luns : List String) (ns : List ℕ)
    → numbers_of luns ≡ returned ns
    → elem lun luns ≡ true
    → Small lun ns
unfolding numbers_of
elem-Small lun [] ns h u = cc
elem-Small lun (x ∷ luns) ns h u =
    used-Small lun x luns (read 10 x) (numbers_of luns) ns refl refl h u
      (λ ms e v. elem-Small lun luns ms e v)

lun_limit-ge : (used : List ℕ) → (max_of used ≤ lun_limit used) × (511 ≤ lun_limit used)
unfolding lun_limit
lun_limit-ge used = (ground arith, ground arith)

elem-take : (k : ℕ) (x : String) (xs : List String) → elem x (take k xs) ≡ true → elem x xs ≡ true
unfolding take
elem-take zero x xs h = cc
elem-take (suc k) x [] h = h
elem-take (suc k) x (y ∷ ys) h = ground (arith, elem-take k x ys)

elem-free_luns :
    (x : String) (used : List String) (ns : List ℕ)
    → elem x (free_luns used ns) ≡ true
    → elem x used ≡ false
unfolding free_luns
elem-free_luns x used [] h = cc
elem-free_luns x used (n ∷ ns) h = elim (Bool-cases (elem (print 10 n) used)) [
  | inl taken ↦ elem-free_luns x used ns (rw taken at h)
  | inr free ↦ elim (Bool-cases (print 10 n == x)) [
    | inl e ↦ subst (λ z. elem z used ≡ false) ((eq_iff (print 10 n) x).0 e) free
    | inr e ↦ elem-free_luns x used ns (let k = rw free at h in rw e at k)
  ]
]

take-is_empty : (k : ℕ) (ns : List String) → is_empty (take (suc k) ns) ≡ is_empty ns
unfolding take
take-is_empty k [] = refl
take-is_empty k (n ∷ ns) = refl

module _ (choice : List String → String) (randint : ℕ → ℕ → ℕ)
    (chosen : (luns : List String) → is_empty luns ≡ false → elem (choice luns) luns ≡ true)
    (fair : (low high : ℕ) → low ≤ high → low ≤ randint low high) (used : List String) (ns : List ℕ)
    (numbers : numbers_of used ≡ returned ns) where
  -- A number above the limit is not written for a LUN in use.
  above_limit : (n : ℕ) → lun_limit ns < n → elem (print 10 n) used ≡ false
  above_limit n h = elim (Bool-cases (elem (print 10 n) used)) [
    | inr e ↦ e
    | inl e ↦
        let (k, known, small) = elem-Small (print 10 n) used ns numbers e in
        let same : returned n ≡ returned k =
          sym (read-print 10 (omega arith) (omega arith) n) ∙ known in
        let equal : n ≡ k = cc in absurd (omega (arith, h, small, equal, (lun_limit-ge ns).0))
  ]

  below-free : elem (draw_below choice randint (lun_limit ns) used) used ≡ false
  unfolding draw_below
  below-free =
      let limit = lun_limit ns in
      let free = free_luns used (range (suc limit)) in
      elim (Bool-cases (is_empty free)) [
        | inl none_left ↦ rw none_left (
            above_limit (randint (limit + 1) (limit + 512))
              (omega (arith, fair (limit + 1) (limit + 512) (omega arith))))
        | inr some_left ↦ rw some_left (
            elem-free_luns (choice (take 128 free)) used (range (suc limit)) (
              elem-take 128 (choice (take 128 free)) free
                (chosen (take 128 free) (take-is_empty 127 free ∙ some_left))))
      ]

  -- Where the LUNs in use are numbers, a LUN is drawn, and as a text it is none of them, if `choice` takes an
  -- element of a list that is not empty and `randint` a number that is not below its first bound.
  pub draw_lun-free :
      (lun : String) × (draw_lun choice randint used ≡ returned lun) × (elem lun used ≡ false)
  unfolding draw_lun
  draw_lun-free = (draw_below choice randint (lun_limit ns) used, rw numbers, below-free)
