-- ===== src/Store/Disk/Scans.antt =====
-- internal/correlate/store_bolt.go: fmt.Sscanf reads back what fmt.Sprintf printed.
use tracearr.Prelude.{
  ℕ, zero, suc, ◌+◌, ◌/◌, ◌%◌, ◌^◌, ◌<◌, ◌≡◌, refl, sym, true, false, List, [], ◌∷◌, ◌++◌, some,
  none, ltb, arith, Bool-cases, inl, inr, nat_eq, ap, ◌∙◌,
}
use tracearr.Prelude.Int.{ℤ, pos, negsuc}
use tracearr.Prelude.Text.{decimal, digits, digits_text, value, value-digits, runes}
use tracearr.Store.Disk.Keys.{
  scan_digits, scan_int, scan_sign, signed, skip_space, is_space, scan_four, scan_more, match_space,
}
use tracearr.Store.Disk.Decimals.{
  digit_runes, digits-AllDigits, AllDigits, runes-digits_text, scan_digits-digit_runes,
  digit_runes-append, runes-append,
}

-- in the range of int64
abbrev pub FitsInt : ℤ → Type 0
FitsInt (pos n) = n < 2 ^ 63
FitsInt (negsuc n) = n < 2 ^ 63

-- No digit stands first.
abbrev Stops : List ℕ → Type 0
Stops rest = (v : ℕ) → scan_digits true v rest ≡ some (v, rest)

digits-cons : (fuel n : ℕ) → n < fuel → (d : ℕ) × (ds : List ℕ) × (digits fuel n ≡ d ∷ ds)
unfolding digits
digits-cons zero n h = absurd (omega (arith, h))
digits-cons (suc fuel) n h = elim (Bool-cases (ltb n 10)) [
  | inl small ↦ (n, [], rw (small, digits) refl)
  | inr large ↦ (n % 10, digits fuel (n / 10), rw (large, digits) refl)
]

digit_runes-cons :
    (d : ℕ) (ds rest : List ℕ)
    → AllDigits (d ∷ ds)
    → (e : ℕ) × (rs : List ℕ) × (e < 10) × (digit_runes (d ∷ ds) rest ≡ (b'0' + e) ∷ rs)
unfolding digit_runes
digit_runes-cons d [] rest h = (d, rest, h.0, refl)
digit_runes-cons d (e ∷ ds) rest h = digit_runes-cons e ds ((b'0' + d) ∷ rest) h.1

skip_space-digit :
    (d : ℕ) (rs : List ℕ) → d < 10 → skip_space ((b'0' + d) ∷ rs) ≡ some ((b'0' + d) ∷ rs)
unfolding skip_space is_space
skip_space-digit d rs h = ground (arith, h)

scan_sign-digit :
    (d : ℕ) (rs : List ℕ)
    → d < 10
    → scan_sign ((b'0' + d) ∷ rs) ≡ signed false (scan_digits false 0 ((b'0' + d) ∷ rs))
unfolding scan_sign
scan_sign-digit d rs h = ground (arith, h)

scan_int-digit :
    (d : ℕ) (rs : List ℕ)
    → d < 10
    → scan_int ((b'0' + d) ∷ rs) ≡ signed false (scan_digits false 0 ((b'0' + d) ∷ rs))
unfolding scan_int
scan_int-digit d rs h = rw (skip_space-digit d rs h, scan_int) (scan_sign-digit d rs h)

-- what the digits of `n` are read as
scan_digits-digits :
    (fuel n : ℕ) (rest : List ℕ)
    → n < fuel
    → Stops rest
    → scan_digits false 0 (digit_runes (digits fuel n) rest) ≡ some (n, rest)
scan_digits-digits fuel n rest enough stops =
    let (d, ds, eq) = digits-cons fuel n enough in
    let all : AllDigits (d ∷ ds) = rw eq at (digits-AllDigits fuel n) in
    let number : value (d ∷ ds) ≡ n = rw eq at (value-digits fuel n enough) in
    rw eq (scan_digits-digit_runes false d ds rest all ∙ rw number (stops n))

scan_int-unsigned :
    (n : ℕ) (rest : List ℕ)
    → Stops rest
    → scan_int (digit_runes (digits (suc n) n) rest) ≡ signed false (some (n, rest))
scan_int-unsigned n rest stops =
    let (d, ds, eq) = digits-cons (suc n) n (omega arith) in
    let (e, rs, small, first) =
      digit_runes-cons d ds rest (rw eq at (digits-AllDigits (suc n) n)) in
    let head : digit_runes (digits (suc n) n) rest ≡ (b'0' + e) ∷ rs = rw eq first in
    ap scan_int head
    ∙ scan_int-digit e rs small
    ∙ ap (λ rs. signed false (scan_digits false 0 rs)) (sym head)
    ∙ ap (signed false) (scan_digits-digits (suc n) n rest (omega arith) stops)

pub runes-decimal_pos : (n : ℕ) → runes (decimal (pos n)) ≡ digit_runes (digits (suc n) n) []
unfolding decimal
runes-decimal_pos n = runes-digits_text (digits (suc n) n) "" (digits-AllDigits (suc n) n)

pub runes-decimal_neg :
    (n : ℕ) → runes (decimal (negsuc n)) ≡ b'-' ∷ digit_runes (digits (n + 2) (n + 1)) []
unfolding decimal
runes-decimal_neg n =
    runes-append "-" (digits_text (digits (n + 2) (n + 1)) "")
    ∙ ap (λ rs. b'-' ∷ rs)
        (runes-digits_text (digits (n + 2) (n + 1)) "" (digits-AllDigits (n + 2) (n + 1)))

-- A printed int is read back, where no digit follows it.
pub scan_int-decimal :
    (z : ℤ) (rest : List ℕ)
    → FitsInt z
    → Stops rest
    → scan_int (runes (decimal z) ++ rest) ≡ some (z, rest)
unfolding signed scan_int skip_space scan_sign is_space
scan_int-decimal (pos n) rest fits stops =
    rw (runes-decimal_pos n, digit_runes-append (digits (suc n) n) [] rest)
      (scan_int-unsigned n rest stops ∙ ground (arith, fits))
scan_int-decimal (negsuc n) rest fits stops =
    rw (runes-decimal_neg n, digit_runes-append (digits (n + 2) (n + 1)) [] rest)
      (ap (signed true) (scan_digits-digits (n + 2) (n + 1) rest (omega arith) stops)
        ∙ ground (arith, fits))

Stops-nil : Stops []
unfolding scan_digits
Stops-nil v = refl

Stops-space : (rest : List ℕ) → Stops (32 ∷ rest)
unfolding scan_digits
Stops-space rest v = refl

-- the verbs after the first
scan_more-decimal :
    (n : ℕ) (z : ℤ) (rest : List ℕ)
    → FitsInt z
    → Stops rest
    → scan_more (suc n) (32 ∷ (runes (decimal z) ++ rest))
      ≡ elim (scan_more n rest) [ none ↦ none | some zs ↦ some (z ∷ zs) ]
unfolding scan_more match_space is_space
scan_more-decimal n z rest fits stops = rw (scan_int-decimal z rest fits stops, scan_more) refl

append-nil : (rs : List ℕ) → rs ++ [] ≡ rs
append-nil [] = refl
append-nil (r ∷ rs) = ap (λ more. r ∷ more) (append-nil rs)

-- four printed ints, separated by spaces
pub scan_four-decimal :
    (a b c d : ℤ)
    → FitsInt a
    → FitsInt b
    → FitsInt c
    → FitsInt d
    → scan_four (
        runes (decimal a)
        ++ (32 ∷ runes (decimal b) ++ (32 ∷ runes (decimal c) ++ (32 ∷ runes (decimal d)))))
      ≡ some (a ∷ b ∷ c ∷ d ∷ [])
unfolding scan_four
scan_four-decimal a b c d fa fb fc fd =
    let last : scan_more 1 (32 ∷ runes (decimal d)) ≡ some (d ∷ []) =
      rw (append-nil (runes (decimal d))) at (scan_more-decimal 0 d [] fd Stops-nil) in
    let after_c = 32 ∷ runes (decimal d) in
    let after_b = 32 ∷ (runes (decimal c) ++ after_c) in
    let after_a = 32 ∷ (runes (decimal b) ++ after_b) in
    rw
      (
        scan_int-decimal a after_a fa (Stops-space (runes (decimal b) ++ after_b)),
        scan_more-decimal 2 b after_b fb (Stops-space (runes (decimal c) ++ after_c)),
        scan_more-decimal 1 c after_c fc (Stops-space (runes (decimal d))),
        last,
        scan_four,
      )
      refl
