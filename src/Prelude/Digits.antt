-- ===== src/Prelude/Digits.antt =====
-- Numbers written and read as Python's `str`, `'{:x}'.format` and `int` do, for a base of 2 to 16. A text with
-- anything but digits in it is a ValueError; signs, spaces, underscores and `0x`, which `int` reads too, are not
-- told apart from other characters.
use Prim.Native.Nat.{ℕ, zero, suc, ◌+◌, ◌*◌, ◌-◌, ◌≤◌, ◌<◌, ◌/◌, ◌%◌}
use native.Mathlib.Nat.{div-lt_self, mod-lt, div-add-mod'}
use Prim.Native.Char.{Char, code, nul}
use Prim.Native.String.{String}
use ibm_block_csi_driver.Errors.{Exception}
use ibm_block_csi_driver.Outcome.{Outcome, returned, raised}
use ibm_block_csi_driver.Prelude.{
  ◌≡◌, refl, ◌∙◌, ap, ltb, leb, ◌&&◌, if◌then◌else◌, arith, inl, inr, Bool-cases,
}

pick : ℕ → String → Char
pick n String.[] = nul
pick zero (String.◌∷◌ c s) = c
pick (suc n) (String.◌∷◌ c s) = pick n s

unfoldable pub digit : ℕ → Char
unfolding pick
digit d = pick d "0123456789abcdef"

unfoldable pub value : ℕ → ℕ
value c =
    if leb 48 c && leb c 57
    then c - 48
    else if leb 97 c && leb c 102
    then c - 87
    else if leb 65 c && leb c 70
    then c - 55
    else 16

-- The digits before a text
unfoldable pub digits : ℕ → ℕ → ℕ → String → String
unfolding digit
digits base zero n rest = String.◌∷◌ (digit n) rest
digits base (suc fuel) n rest =
    let more = digits base fuel (n / base) (String.◌∷◌ (digit (n % base)) rest) in
    if ltb n base then String.◌∷◌ (digit n) rest else more

-- Each step divides by the base, so the number itself is enough fuel.
unfoldable pub print : ℕ → ℕ → String
unfolding digits
print base n = digits base n n ""

read_from : ℕ → ℕ → String → Outcome ℕ
unfolding value
read_from base acc String.[] = returned acc
read_from base acc (String.◌∷◌ c s) =
    let d = value (code c) in
    let rest = read_from base (acc * base + d) s in
    if ltb d base then rest else raised Exception.value_error

unfoldable pub read : ℕ → String → Outcome ℕ
unfolding read_from
read base String.[] = raised Exception.value_error
read base (String.◌∷◌ c s) = read_from base 0 (String.◌∷◌ c s)

value-digit : (d : ℕ) → d < 16 → value (code (digit d)) ≡ d
unfolding value digit
value-digit zero h = refl
value-digit (suc zero) h = refl
value-digit (suc (suc zero)) h = refl
value-digit (suc (suc (suc zero))) h = refl
value-digit (suc (suc (suc (suc zero)))) h = refl
value-digit (suc (suc (suc (suc (suc zero))))) h = refl
value-digit (suc (suc (suc (suc (suc (suc zero)))))) h = refl
value-digit (suc (suc (suc (suc (suc (suc (suc zero))))))) h = refl
value-digit (suc (suc (suc (suc (suc (suc (suc (suc zero)))))))) h = refl
value-digit (suc (suc (suc (suc (suc (suc (suc (suc (suc zero))))))))) h = refl
value-digit (suc (suc (suc (suc (suc (suc (suc (suc (suc (suc zero)))))))))) h = refl
value-digit (suc (suc (suc (suc (suc (suc (suc (suc (suc (suc (suc zero))))))))))) h = refl
value-digit (suc (suc (suc (suc (suc (suc (suc (suc (suc (suc (suc (suc zero)))))))))))) h = refl
value-digit (suc (suc (suc (suc (suc (suc (suc (suc (suc (suc (suc (suc (suc zero))))))))))))) h =
    refl
value-digit (suc (suc (suc (suc (suc (suc (suc (suc (suc (suc (suc (suc (suc (suc zero))))))))))))))
      h =
    refl
value-digit
      (suc (suc (suc (suc (suc (suc (suc (suc (suc (suc (suc (suc (suc (suc (suc zero)))))))))))))))
      h =
    refl
value-digit
      (suc
        (suc (suc (suc (suc (suc (suc (suc (suc (suc (suc (suc (suc (suc (suc (suc n))))))))))))))))
      h =
    absurd (omega (arith, h))

module _ (base : ℕ) (least : 2 ≤ base) (greatest : base ≤ 16) where
  step :
      (acc d : ℕ) (rest : String)
      → d < base
      → read_from base acc (String.◌∷◌ (digit d) rest) ≡ read_from base (acc * base + d) rest
  unfolding read_from
  step acc d rest h = rw (value-digit d (omega (arith, h, greatest))) (ground arith)

  read_from-digits :
      (fuel n : ℕ) (rest : String)
      → n ≤ fuel
      → read_from base 0 (digits base fuel n rest) ≡ read_from base n rest
  unfolding digits
  read_from-digits zero n rest f =
      step 0 n rest (ground arith) ∙ ap (λ m. read_from base m rest) (omega arith)
  read_from-digits (suc fuel) n rest f = elim (Bool-cases (ltb n base)) [
    | inl small ↦
        rw small (step 0 n rest (ground arith) ∙ ap (λ m. read_from base m rest) (omega arith))
    | inr large ↦ rw large (
        read_from-digits fuel (n / base) (String.◌∷◌ (digit (n % base)) rest)
          (ground (arith, div-lt_self {n = n} {k = base} (ground arith) (omega (arith, least))))
        ∙ step (n / base) (n % base) rest (mod-lt n (omega (arith, least)))
        ∙ ap (λ m. read_from base m rest) (div-add-mod' n base))
  ]

  read-digits :
      (fuel n : ℕ) (rest : String)
      → read base (digits base fuel n rest) ≡ read_from base 0 (digits base fuel n rest)
  unfolding read digits
  read-digits zero n rest = refl
  read-digits (suc fuel) n rest = elim (Bool-cases (ltb n base)) [
    | inl small ↦ rw small refl
    | inr large ↦ rw large (read-digits fuel (n / base) (String.◌∷◌ (digit (n % base)) rest))
  ]

  -- A number is read back out of its digits.
  pub read-print : (n : ℕ) → read base (print base n) ≡ returned n
  unfolding print read_from
  read-print n = read-digits n n "" ∙ read_from-digits n n "" (omega arith)

  -- So it is where zeros stand before them.
  pub read-pad : (n : ℕ) → read base (String.◌∷◌ (digit 0) (print base n)) ≡ returned n
  unfolding print read read_from
  read-pad n =
      step 0 0 (print base n) (omega (arith, least))
      ∙ ap (λ m. read_from base m (print base n)) (omega arith)
      ∙ read_from-digits n n "" (omega arith)
