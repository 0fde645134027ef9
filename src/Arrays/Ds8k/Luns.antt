-- ===== src/Arrays/Ds8k/Luns.antt =====
-- controllers/array_action/ds8k_rest_client.py: the two styles of a LUN number. Below 256 it is itself; above,
-- its two halves of 16 bits are swapped. The halves do not overlap, so `|` adds them. The arrays write
-- it in hexadecimal digits.
use ibm_block_csi_driver.Prelude.{
  ℕ, ◌+◌, ◌*◌, ◌/◌, ◌≤◌, ◌<◌, ◌≡◌, sym, ap, ◌∙◌, ◌↔◌, ◌⊎◌, inl, inr, Bool-cases, String, ltb,
  if◌then◌else◌, arith,
}
use ibm_block_csi_driver.Prelude.Digits.{digit, print, read, read-print, read-pad}
use ibm_block_csi_driver.Outcome.{Outcome, returned, raised}
use Prim.Native.Nat.{◌%◌}
use native.Mathlib.Decide.{dec_lt}

-- `(n >> 16 & 0xFFFF) | (n & 0xFFFF) << 16`
unfoldable pub swap_halves : ℕ → ℕ
swap_halves n = n / 65536 % 65536 + n % 65536 * 65536

-- `'{0:0{1}x}'.format(n, 2)`, of a number below 256
unfoldable pub int_lunid_to_hex : ℕ → String
int_lunid_to_hex n = if ltb n 16 then String.◌∷◌ (digit 0) (print 16 n) else print 16 n

-- `int_to_scsilun`
unfoldable pub int_to_scsilun : ℕ → String
unfolding swap_halves int_lunid_to_hex
int_to_scsilun n = if ltb n 256 then int_lunid_to_hex n else print 16 (swap_halves n)

abbrev pub settled : ℕ → ℕ
settled n = if ltb n 256 then n else swap_halves n

abbrev pub number_of : Outcome ℕ → Outcome ℕ
number_of (raised e) = raised e
number_of (returned n) = returned (settled n)

-- `scsilun_to_int`
unfoldable pub scsilun_to_int : String → Outcome ℕ
unfolding swap_halves
scsilun_to_int lun = number_of (read 16 lun)

swap_halves_twice : (n : ℕ) → n < 4294967296 → swap_halves (swap_halves n) ≡ n
unfolding swap_halves
swap_halves_twice n h = omega arith

swap_halves_bounded : (n : ℕ) → swap_halves n < 4294967296
unfolding swap_halves
swap_halves_bounded n = omega arith

-- The digits written stand for the number with its halves swapped or not.
read-int_to_scsilun : (n : ℕ) → read 16 (int_to_scsilun n) ≡ returned (settled n)
unfolding int_to_scsilun int_lunid_to_hex
read-int_to_scsilun n = elim (Bool-cases (ltb n 256)) [
  | inr large ↦ rw large (read-print 16 (omega arith) (omega arith) (swap_halves n))
  | inl small ↦ elim (Bool-cases (ltb n 16)) [
    | inl one ↦ rw (small, one) (read-pad 16 (omega arith) (omega arith) n)
    | inr two ↦ rw (small, two) (read-print 16 (omega arith) (omega arith) n)
  ]
]

twice : (n : ℕ) → scsilun_to_int (int_to_scsilun n) ≡ returned (settled (settled n))
unfolding scsilun_to_int
twice n = ap number_of (read-int_to_scsilun n)

kept : (n : ℕ) → n < 4294967296 → (n < 256) ⊎ (256 ≤ swap_halves n) → settled (settled n) ≡ n
kept n h (inl p) = ground arith
kept n h (inr p) = ground (arith, swap_halves_twice n h)

read_back : (n : ℕ) → settled (settled n) ≡ n → (n < 256) ⊎ (256 ≤ swap_halves n)
read_back n e = elim (dec_lt n 256) [ yes p ↦ inl p | no p ↦ inr (ground arith) ]

value_of : ℕ → Outcome ℕ → ℕ
value_of d (returned n) = n
value_of d (raised e) = d

-- A LUN number of 32 bits is read back as it was out of the digits written for it, exactly where it is
-- below 256 or its swapped form is not.
pub scsilun_to_int-int_to_scsilun :
    (n : ℕ)
    → n < 4294967296
    → (scsilun_to_int (int_to_scsilun n) ≡ returned n) ↔ ((n < 256) ⊎ (256 ≤ swap_halves n))
unfolding value_of
scsilun_to_int-int_to_scsilun n h = (
  λ e. read_back n (ap (value_of 0) (sym (twice n) ∙ e)),
  λ k. twice n ∙ ap (λ m. returned m) (kept n h k),
)
