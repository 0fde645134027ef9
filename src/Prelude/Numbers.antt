-- ===== src/Prelude/Numbers.antt =====
-- Lists of numbers: ranges, and what is left of one without the numbers of another.
use Prim.Native.Nat.{ℕ, zero, suc, ◌+◌, ◌≤◌, ◌<◌}
use mathlib.Core.Path.{◌≡◌, sym, subst, refl}
use mathlib.Core.Logic.{inl, inr}
use mathlib.Core.Bool.{Bool, true, false}
use mathlib.Core.Option.{Option, none, some}
use mathlib.Core.List.{List, [], ◌∷◌, ◌++◌}
use native.Mathlib.Omega.{arith}
use ibm_block_csi_driver.Prelude.Tests.{Bool-cases, nat_eq, if◌then◌else◌}
use ibm_block_csi_driver.Prelude.Lists.{any, All, length}

abbrev pub mem : ℕ → List ℕ → Bool
mem n ns = any (nat_eq n) ns

-- `list(range(n))`
unfoldable pub range : ℕ → List ℕ
range zero = []
range (suc n) = range n ++ n ∷ []

-- `list(range(low, low + n))`
unfoldable pub span : ℕ → ℕ → List ℕ
span low zero = []
span low (suc n) = low ∷ span (low + 1) n

unfoldable pub not_in : List ℕ → List ℕ → List ℕ
not_in used [] = []
not_in used (n ∷ ns) = let rest = not_in used ns in if mem n used then rest else n ∷ rest

pub nat_eq→eq : (n m : ℕ) → nat_eq n m ≡ true → n ≡ m
nat_eq→eq n m h = ground arith

-- No element of the list is used.
abbrev pub AllFree : List ℕ → List ℕ → Type 0
AllFree used = All (λ n. mem n used ≡ false)

pub not_in-AllFree : (used ns : List ℕ) → AllFree used (not_in used ns)
unfolding not_in
not_in-AllFree used [] = tt
not_in-AllFree used (n ∷ ns) = elim (Bool-cases (mem n used)) [
  | inl e ↦ rw e (not_in-AllFree used ns)
  | inr e ↦ rw e (e, not_in-AllFree used ns)
]

pub AllFree-mem :
    (n : ℕ) (used ns : List ℕ) → AllFree used ns → mem n ns ≡ true → mem n used ≡ false
AllFree-mem n used [] h k = cc
AllFree-mem n used (m ∷ ns) h k = elim (Bool-cases (nat_eq n m)) [
  | inl e ↦ subst (λ x. mem x used ≡ false) (sym (nat_eq→eq n m e)) h.0
  | inr e ↦ AllFree-mem n used ns h.1 (rw e at k)
]

-- `xs[i]`, where there is one
unfoldable pub get_elem? {ℓ} : {A : Type ℓ} → List A → ℕ → Option A
get_elem? [] i = none
get_elem? (x ∷ xs) zero = some x
get_elem? (x ∷ xs) (suc i) = get_elem? xs i

-- Every number of a list lies in a range.
abbrev pub AllWithin : ℕ → ℕ → List ℕ → Type 0
AllWithin low high = All (λ n. (low ≤ n) × (n < high))

AllWithin-weaken : (a b high : ℕ) (ns : List ℕ) → a ≤ b → AllWithin b high ns → AllWithin a high ns
AllWithin-weaken a b high [] h w = tt
AllWithin-weaken a b high (n ∷ ns) h w = ((omega arith, w.0.1), AllWithin-weaken a b high ns h w.1)

pub span-AllWithin : (low n high : ℕ) → low + n ≡ high → AllWithin low high (span low n)
unfolding span
span-AllWithin low zero high h = tt
span-AllWithin low (suc n) high h = (
  (omega arith, omega arith),
  AllWithin-weaken low (low + 1) high (span (low + 1) n) (omega arith)
      (span-AllWithin (low + 1) n high (omega arith)),
)

pub not_in-AllWithin :
    (used ns : List ℕ) (low high : ℕ) → AllWithin low high ns → AllWithin low high (not_in used ns)
unfolding not_in
not_in-AllWithin used [] low high w = tt
not_in-AllWithin used (n ∷ ns) low high w = elim (Bool-cases (mem n used)) [
  | inl e ↦ rw e (not_in-AllWithin used ns low high w.1)
  | inr e ↦ rw e (w.0, not_in-AllWithin used ns low high w.1)
]

-- An index below the length finds an element, and what holds of all holds of it.
pub get_elem?-All {κ} :
    (P : ℕ → Type κ) (ns : List ℕ) (i : ℕ)
    → i < length ns
    → All P ns
    → (n : ℕ) × (get_elem? ns i ≡ some n) × P n
unfolding get_elem?
get_elem?-All P [] i h w = absurd (omega arith)
get_elem?-All P (n ∷ ns) zero h w = (n, refl, w.0)
get_elem?-All P (n ∷ ns) (suc i) h w = get_elem?-All P ns i (omega arith) w.1

-- Nothing is left exactly where all of it is used.
pub not_in-none_left : (used ns : List ℕ) → not_in used ns ≡ [] → All (λ n. mem n used ≡ true) ns
unfolding not_in
not_in-none_left used [] h = tt
not_in-none_left used (n ∷ ns) h = elim (Bool-cases (mem n used)) [
  | inl e ↦ (e, not_in-none_left used ns (rw e at h))
  | inr e ↦ let impossible = rw e at h in cc
]
