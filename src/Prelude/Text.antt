-- ===== src/Prelude/Text.antt =====
-- fmt's %d and the joining of texts.
use Prim.Native.Nat.{ℕ, zero, suc, ◌+◌, ◌*◌, ◌-◌, ◌/◌, ◌%◌, ◌^◌, ◌<◌, min}
use Prim.Native.String.{String, ◌++◌ as str_append}
use Prim.Native.Char.{code}
use mathlib.Core.Path.{◌≡◌}
use mathlib.Core.Bool.{true, false, ◌&&◌}
use mathlib.Core.Logic.{inl, inr}
use mathlib.Core.Option.{Option, none, some}
use mathlib.Core.List.{List, [], ◌∷◌}
use native.Mathlib.Omega.{arith}
use tracearr.Prelude.Tests.{ltb, leb, nat_beq, Bool-cases, if◌then◌else◌}
use tracearr.Prelude.Int.{ℤ, pos, negsuc}

-- The decimal digits, the last one first; `fuel` above the number is enough.
unfoldable pub digits : ℕ → ℕ → List ℕ
digits zero n = []
digits (suc fuel) n = elim (ltb n 10) [ true ↦ n ∷ [] | false ↦ n % 10 ∷ digits fuel (n / 10) ]

unfoldable pub value : List ℕ → ℕ
value [] = 0
value (d ∷ ds) = d + 10 * value ds

pub value-digits : (fuel n : ℕ) → n < fuel → value (digits fuel n) ≡ n
unfolding digits value
value-digits zero n enough = omega (arith, enough)
value-digits (suc fuel) n enough = elim (Bool-cases (ltb n 10)) [
  | inl small ↦ rw (small, digits) (omega arith)
  | inr large ↦
      rw (large, digits)
        (rw (value-digits fuel (n / 10) (ground (arith, enough, large))) (omega arith))
]

unfoldable pub get_elem? {ℓ} : {A : Type ℓ} → ℕ → List A → Option A
get_elem? n [] = none
get_elem? zero (a ∷ rest) = some a
get_elem? (suc n) (a ∷ rest) = get_elem? n rest

unfoldable pub digit_text : ℕ → String
unfolding get_elem?
digit_text d =
    elim (get_elem? {A = String} d
      ("0" ∷ "1" ∷ "2" ∷ "3" ∷ "4" ∷ "5" ∷ "6" ∷ "7" ∷ "8" ∷ "9" ∷ [])) [ some t ↦ t | none ↦ "" ]

unfoldable pub digits_text : List ℕ → String → String
unfolding digit_text
digits_text [] rest = rest
digits_text (d ∷ ds) rest = digits_text ds (str_append (digit_text d) rest)

unfoldable pub decimal : ℤ → String
unfolding digits_text digits
decimal (pos n) = digits_text (digits (suc n) n) ""
decimal (negsuc n) = str_append "-" (digits_text (digits (n + 2) (n + 1)) "")

-- texts joined by colons
unfoldable pub join_colons : List String → String
join_colons [] = ""
join_colons (s ∷ []) = s
join_colons (s ∷ t ∷ ts) = str_append s (str_append ":" (join_colons (t ∷ ts)))

-- The runes of a text; `String` has its own `[]` and `∷`.
abbrev pub runes : String → List ℕ
runes String.[] = []
runes (String.◌∷◌ c s) = code c ∷ runes s

-- The digits' number, after those already read; none where a rune is no digit.
unfoldable pub read_digits : ℕ → List ℕ → Option ℕ
read_digits acc [] = some acc
read_digits acc (r ∷ rs) = elim (leb b'0' r && leb r b'9') [
  | true ↦ read_digits (acc * 10 + (r - b'0')) rs
  | false ↦ none
]

-- strconv.Atoi of digits, as its result stands beside an error: 0 for no number, the bound for one
-- that is out of range.
unfoldable pub positive_int : List ℕ → ℤ
unfolding read_digits
positive_int [] = pos 0
positive_int (r ∷ rs) = elim (read_digits 0 (r ∷ rs)) [
  | none ↦ pos 0
  | some n ↦ pos (min n (2 ^ 63 - 1))
]

unfoldable pub negative_int : List ℕ → ℤ
unfolding read_digits
negative_int [] = pos 0
negative_int (r ∷ rs) = elim (read_digits 0 (r ∷ rs)) [
  | none ↦ pos 0
  | some zero ↦ pos 0
  | some (suc n) ↦ negsuc (min n (2 ^ 63 - 1))
]

unfoldable pub atoi_runes : List ℕ → ℤ
unfolding positive_int negative_int
atoi_runes [] = pos 0
atoi_runes (r ∷ rs) =
    if nat_beq r b'-'
    then negative_int rs
    else if nat_beq r b'+'
    then positive_int rs
    else positive_int (r ∷ rs)
