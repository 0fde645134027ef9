-- ===== src/Prelude/Text.antt =====
-- Python's `str` as the native text: truth, `split`, `join`, `in`, slices, `lower` and `strip`.
use Prim.Native.Nat.{ℕ, zero, suc, ◌+◌, ◌≤◌}
use Prim.Native.Char.{Char, code}
use Prim.Native.String.append
use Prim.Native.String.{String}
use Prim.Native.String.{[] as empty, ◌∷◌ as ◌∷ˢ◌, ◌++◌ as ◌++ˢ◌}
use mathlib.Core.Path.{◌≡◌, refl, ap, ◌∙◌}
use mathlib.Core.Bool.{Bool, true, false, not, ◌&&◌, ◌||◌}
use mathlib.Core.Option.{Option, none, some}
use mathlib.Core.List.{List, [], ◌∷◌}
use native.Mathlib.Omega.{arith}
use text.Mathlib.Text.{◌==◌}
use text.Mathlib.TextEquality.{eq_iff}
use text.Mathlib.TextLemmas.{cons-ne-nil}
use mathlib.Core.Logic.{inl, inr}
use mathlib.Core.Path.{subst, sym}
use ibm_block_csi_driver.Prelude.Tests.{Bool-cases, leb, nat_eq, if◌then◌else◌}

-- `if s`: every text but the empty one
abbrev pub truthy : String → Bool
truthy s = not (s == "")

-- `if s`, for a text that may be `None`
abbrev pub truthy? : Option String → Bool
truthy? none = false
truthy? (some s) = truthy s

abbrev pub same_char : Char → Char → Bool
same_char c d = nat_eq (code c) (code d)

-- `c in s`
unfoldable pub contains : Char → String → Bool
contains d empty = false
contains d (c ∷ˢ s) = same_char c d || contains d s

abbrev push_head : Char → List String → List String
push_head c [] = (c ∷ˢ empty) ∷ []
push_head c (p ∷ ps) = (c ∷ˢ p) ∷ ps

-- `s.split(d)`, for a separator of one character: never the empty list
unfoldable pub split : Char → String → List String
split d empty = empty ∷ []
split d (c ∷ˢ s) = let rest = split d s in if same_char c d then empty ∷ rest else push_head c rest

-- `sep.join(parts)`
unfoldable pub join : String → List String → String
join sep [] = empty
join sep (p ∷ []) = p
join sep (p ∷ q ∷ ps) = p ++ˢ (sep ++ˢ join sep (q ∷ ps))

abbrev pub of_char : Char → String
of_char c = c ∷ˢ empty

pub split-no_separator : (d : Char) (s : String) → contains d s ≡ false → split d s ≡ s ∷ []
unfolding contains split
split-no_separator d empty h = refl
split-no_separator d (c ∷ˢ s) h = ground (arith, split-no_separator d s)

pub split-append :
    (d : Char) (p s : String)
    → contains d p ≡ false
    → split d (p ++ˢ (of_char d ++ˢ s)) ≡ p ∷ split d s
unfolding contains split
split-append d empty s h =
    rw (append.nil (of_char d ++ˢ s), append.cons d empty s, append.nil s) (ground arith)
split-append d (c ∷ˢ p) s h =
    rw (append.cons c p (of_char d ++ˢ s)) (ground (arith, split-append d p s))

pub contains-append :
    (d : Char) (s t : String) → contains d (s ++ˢ t) ≡ (contains d s || contains d t)
unfolding contains
contains-append d empty t = rw (append.nil t)
contains-append d (c ∷ˢ s) t = rw (append.cons c s t) (ground (arith, contains-append d s t))

-- The number of characters.
abbrev pub str_length : String → ℕ
str_length empty = 0
str_length (c ∷ˢ s) = suc (str_length s)

pub str_length-append : (s t : String) → str_length (s ++ˢ t) ≡ str_length s + str_length t
str_length-append empty t = rw (append.nil t) (omega arith)
str_length-append (c ∷ˢ s) t = rw (append.cons c s t) (omega (arith, str_length-append s t))

-- `s[:n]` and `s[n:]`, in characters
abbrev pub str_take : ℕ → String → String
str_take zero s = empty
str_take (suc n) empty = empty
str_take (suc n) (c ∷ˢ s) = c ∷ˢ str_take n s

abbrev pub str_drop : ℕ → String → String
str_drop zero s = s
str_drop (suc n) empty = empty
str_drop (suc n) (c ∷ˢ s) = str_drop n s

pub str_length-take-le : (n : ℕ) (s : String) → str_length (str_take n s) ≤ n
str_length-take-le zero s = omega arith
str_length-take-le (suc n) empty = omega arith
str_length-take-le (suc n) (c ∷ˢ s) = omega (arith, str_length-take-le n s)

pub str_take_all : (n : ℕ) (s : String) → str_length s ≤ n → str_take n s ≡ s
str_take_all zero empty h = refl
str_take_all zero (c ∷ˢ s) h = absurd (omega arith)
str_take_all (suc n) empty h = refl
str_take_all (suc n) (c ∷ˢ s) h = ap (λ t. c ∷ˢ t) (str_take_all n s (omega arith))

abbrev pairs : List (Char × Char)
pairs =
    ("A", "a")
    ∷ ("B", "b")
    ∷ ("C", "c")
    ∷ ("D", "d")
    ∷ ("E", "e")
    ∷ ("F", "f")
    ∷ ("G", "g")
    ∷ ("H", "h")
    ∷ ("I", "i")
    ∷ ("J", "j")
    ∷ ("K", "k")
    ∷ ("L", "l")
    ∷ ("M", "m")
    ∷ ("N", "n")
    ∷ ("O", "o")
    ∷ ("P", "p")
    ∷ ("Q", "q")
    ∷ ("R", "r")
    ∷ ("S", "s")
    ∷ ("T", "t")
    ∷ ("U", "u")
    ∷ ("V", "v")
    ∷ ("W", "w")
    ∷ ("X", "x")
    ∷ ("Y", "y")
    ∷ ("Z", "z")
    ∷ []

lower_char_by : List (Char × Char) → Char → Char
lower_char_by [] c = c
lower_char_by ((u, l) ∷ rest) c = if same_char u c then l else lower_char_by rest c

-- `s.lower()`, on ASCII letters
unfoldable pub lower : String → String
unfolding lower_char_by
lower empty = empty
lower (c ∷ˢ s) = lower_char_by pairs c ∷ˢ lower s

abbrev swap_pairs : List (Char × Char) → List (Char × Char)
swap_pairs [] = []
swap_pairs ((u, l) ∷ rest) = (l, u) ∷ swap_pairs rest

-- `s.upper()`, on ASCII letters
unfoldable pub upper : String → String
unfolding lower_char_by
upper empty = empty
upper (c ∷ˢ s) = lower_char_by (swap_pairs pairs) c ∷ˢ upper s

-- The white space that `strip` takes off, in ASCII
abbrev pub is_space : Char → Bool
is_space c = let n = code c in nat_eq n 32 || (leb 9 n && leb n 13) || (leb 28 n && leb n 31)

unfoldable pub lstrip : String → String
lstrip empty = empty
lstrip (c ∷ˢ s) = let rest = lstrip s in if is_space c then rest else c ∷ˢ s

unfoldable pub rstrip : String → String
rstrip empty = empty
rstrip (c ∷ˢ s) =
    let rest = rstrip s in if is_space c && not (truthy rest) then empty else c ∷ˢ rest

-- `s.strip()`
unfoldable pub strip : String → String
unfolding lstrip rstrip
strip s = lstrip (rstrip s)

pub truthy-cons : (c : Char) (s : String) → truthy (c ∷ˢ s) ≡ true
truthy-cons c s = elim (Bool-cases ((c ∷ˢ s) == "")) [
  | inl e ↦ absurd (cons-ne-nil c s ((eq_iff (c ∷ˢ s) "").0 e))
  | inr e ↦ rw e
]

pub contains_empty : (d : Char) (s : String) → (s == "") ≡ true → contains d s ≡ false
unfolding contains
contains_empty d s e = subst (λ t. contains d t ≡ false) (sym ((eq_iff s "").0 e)) refl

pub contains-truthy : (d : Char) (s : String) → contains d s ≡ true → truthy s ≡ true
contains-truthy d s h = elim (Bool-cases (s == "")) [
  | inl e ↦ cc (contains_empty d s e)
  | inr e ↦ rw e
]

-- `parts[0]` of a split, which is never empty.
abbrev pub first_part : List String → String
first_part [] = empty
first_part (p ∷ ps) = p

first_part-push_head :
    (c : Char) (ps : List String) → first_part (push_head c ps) ≡ c ∷ˢ first_part ps
first_part-push_head c [] = refl
first_part-push_head c (p ∷ ps) = refl

pub contains-first_part : (d : Char) (s : String) → contains d (first_part (split d s)) ≡ false
unfolding contains split
contains-first_part d empty = refl
contains-first_part d (c ∷ˢ s) = elim (Bool-cases (same_char c d)) [
  | inl e ↦ rw e
  | inr e ↦ rw (e, first_part-push_head c (split d s)) (rw e (contains-first_part d s))
]

abbrev pub NoneHolds : Char → List String → Type 0
NoneHolds d [] = Unit {0}
NoneHolds d (p ∷ ps) = (contains d p ≡ false) × NoneHolds d ps

-- Joining parts that do not hold the separator, and splitting, gives the parts back.
pub split-join :
    (d : Char) (p : String) (ps : List String)
    → contains d p ≡ false
    → NoneHolds d ps
    → split d (join (of_char d) (p ∷ ps)) ≡ p ∷ ps
unfolding join
split-join d p [] h hs = split-no_separator d p h
split-join d p (q ∷ ps) h hs =
    split-append d p (join (of_char d) (q ∷ ps)) h ∙ ap (λ r. p ∷ r) (split-join d q ps hs.0 hs.1)

-- `text.startswith(prefix)`
unfoldable pub starts_with : String → String → Bool
starts_with prefix text = str_take (str_length prefix) text == prefix

-- `part in text`, for a text
unfoldable pub finds : String → String → Bool
unfolding starts_with
finds part String.[] = part == ""
finds part (String.◌∷◌ c s) = let later = finds part s in starts_with part (String.◌∷◌ c s) || later
