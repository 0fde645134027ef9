-- ===== src/Prelude/Slices.antt =====
-- Laws of slices of texts.
use Prim.Native.Nat.{ℕ, zero, suc, ◌+◌, ◌-◌, ◌≤◌}
use Prim.Native.String.append
use Prim.Native.String.{String, ◌++◌, ◌∷◌, []}
use mathlib.Core.Path.{◌≡◌, refl, ap, subst}
use native.Mathlib.Omega.{arith}
use ibm_block_csi_driver.Prelude.Text.{str_length, str_take, str_drop}

pub take-append-drop : (n : ℕ) (s : String) → str_take n s ++ str_drop n s ≡ s
take-append-drop zero s = append.nil s
take-append-drop (suc n) [] = append.nil []
take-append-drop (suc n) (c ∷ s) =
    rw (append.cons c (str_take n s) (str_drop n s)) (ap (λ t. c ∷ t) (take-append-drop n s))

take-append : (a b : String) → str_take (str_length a) (a ++ b) ≡ a
take-append [] b = refl
take-append (c ∷ a) b = rw (append.cons c a b) (ap (λ t. c ∷ t) (take-append a b))

drop-append : (a b : String) → str_drop (str_length a) (a ++ b) ≡ b
drop-append [] b = append.nil b
drop-append (c ∷ a) b = rw (append.cons c a b) (drop-append a b)

drop_empty : (m : ℕ) → str_drop m [] ≡ []
drop_empty zero = refl
drop_empty (suc m) = refl

suc-plus : (n m : ℕ) → suc n + m ≡ suc (n + m)
suc-plus n m = omega arith

pub drop-drop : (m n : ℕ) (s : String) → str_drop m (str_drop n s) ≡ str_drop (n + m) s
drop-drop m zero s = ap (λ k. str_drop k s) (omega arith)
drop-drop m (suc n) [] = rw (drop_empty m, drop_empty (suc n + m))
drop-drop m (suc n) (c ∷ s) = rw (suc-plus n m) (drop-drop m n s)

pub str_length-take : (n : ℕ) (s : String) → n ≤ str_length s → str_length (str_take n s) ≡ n
str_length-take zero s h = refl
str_length-take (suc n) [] h = absurd (omega arith)
str_length-take (suc n) (c ∷ s) h = ap suc (str_length-take n s (omega arith))

pub str_length-drop : (n : ℕ) (s : String) → str_length (str_drop n s) ≡ str_length s - n
str_length-drop zero s = omega arith
str_length-drop (suc n) [] = omega arith
str_length-drop (suc n) (c ∷ s) = omega (arith, str_length-drop n s)

-- The same at a length that is known.
pub take-append_at : (n : ℕ) (a b : String) → str_length a ≡ n → str_take n (a ++ b) ≡ a
take-append_at n a b h = subst (λ k. str_take k (a ++ b) ≡ a) h (take-append a b)

pub drop-append_at : (n : ℕ) (a b : String) → str_length a ≡ n → str_drop n (a ++ b) ≡ b
drop-append_at n a b h = subst (λ k. str_drop k (a ++ b) ≡ b) h (drop-append a b)
