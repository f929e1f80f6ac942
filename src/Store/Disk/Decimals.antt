-- ===== src/Store/Disk/Decimals.antt =====
-- internal/correlate/store_bolt.go: a number printed by %d is read back by %d.
use tracearr.Prelude.{
  ℕ, zero, suc, ◌+◌, ◌*◌, ◌/◌, ◌<◌, ◌≡◌, refl, Bool, true, false, String, List, [], ◌∷◌, ◌++◌, ltb,
  arith, Bool-cases, inl, inr, nat_eq, ap, ◌∙◌,
}
use tracearr.Prelude.Lists.{All, contains}
use tracearr.Prelude.Text.{digits, digits_text, digit_text, get_elem?, value, runes}
use tracearr.Store.Disk.Keys.{scan_digits}
use Prim.Native.String.{◌++◌ as str_append}
use Prim.Native.Char.{code}
use text.Mathlib.TextLemmas.{nil-append, cons-append}

-- the runes of `digits_text`
unfoldable pub digit_runes : List ℕ → List ℕ → List ℕ
digit_runes [] rest = rest
digit_runes (d ∷ ds) rest = digit_runes ds ((b'0' + d) ∷ rest)

abbrev pub AllDigits : List ℕ → Type 0
AllDigits ds = All (λ d. d < 10) ds

pub digits-AllDigits : (fuel n : ℕ) → AllDigits (digits fuel n)
unfolding digits
digits-AllDigits zero n = tt
digits-AllDigits (suc fuel) n = elim (Bool-cases (ltb n 10)) [
  | inl small ↦ rw (small, digits) (ground (arith, small), tt)
  | inr large ↦ rw (large, digits) (omega arith, digits-AllDigits fuel (n / 10))
]

pub runes-append : (s t : String) → runes (str_append s t) ≡ runes s ++ runes t
runes-append String.[] t = ap runes (nil-append t)
runes-append (String.◌∷◌ c s) t =
    ap runes (cons-append c s t) ∙ ap (λ rs. code c ∷ rs) (runes-append s t)

runes-digit_text :
    (d : ℕ) (rest : String)
    → d < 10
    → runes (str_append (digit_text d) rest) ≡ (b'0' + d) ∷ runes rest
unfolding digit_text get_elem?
runes-digit_text zero rest h = runes-append "0" rest
runes-digit_text (suc zero) rest h = runes-append "1" rest
runes-digit_text (suc (suc zero)) rest h = runes-append "2" rest
runes-digit_text (suc (suc (suc zero))) rest h = runes-append "3" rest
runes-digit_text (suc (suc (suc (suc zero)))) rest h = runes-append "4" rest
runes-digit_text (suc (suc (suc (suc (suc zero))))) rest h = runes-append "5" rest
runes-digit_text (suc (suc (suc (suc (suc (suc zero)))))) rest h = runes-append "6" rest
runes-digit_text (suc (suc (suc (suc (suc (suc (suc zero))))))) rest h = runes-append "7" rest
runes-digit_text (suc (suc (suc (suc (suc (suc (suc (suc zero)))))))) rest h = runes-append "8" rest
runes-digit_text (suc (suc (suc (suc (suc (suc (suc (suc (suc zero))))))))) rest h =
    runes-append "9" rest
runes-digit_text (suc (suc (suc (suc (suc (suc (suc (suc (suc (suc d)))))))))) rest h =
    absurd (omega (arith, h))

pub runes-digits_text :
    (ds : List ℕ) (rest : String)
    → AllDigits ds
    → runes (digits_text ds rest) ≡ digit_runes ds (runes rest)
unfolding digits_text digit_runes
runes-digits_text [] rest h = refl
runes-digits_text (d ∷ ds) rest h =
    runes-digits_text ds (str_append (digit_text d) rest) h.1
    ∙ ap (digit_runes ds) (runes-digit_text d rest h.0)

pub digit_runes-append :
    (ds rest more : List ℕ) → digit_runes ds rest ++ more ≡ digit_runes ds (rest ++ more)
unfolding digit_runes
digit_runes-append [] rest more = refl
digit_runes-append (d ∷ ds) rest more = digit_runes-append ds ((b'0' + d) ∷ rest) more

pub contains-digit_runes :
    (ds rest : List ℕ)
    → AllDigits ds
    → contains rest b'|' ≡ false
    → contains (digit_runes ds rest) b'|' ≡ false
unfolding digit_runes contains
contains-digit_runes [] rest h r = r
contains-digit_runes (d ∷ ds) rest h r =
    contains-digit_runes ds ((b'0' + d) ∷ rest) h.1 (ground (arith, h.0, r))

-- The last digit read makes ten times the number before it plus that digit.
scan_digits-digit :
    (b : Bool) (acc d : ℕ) (rest : List ℕ)
    → d < 10
    → scan_digits b acc ((b'0' + d) ∷ rest) ≡ scan_digits true (acc * 10 + d) rest
unfolding scan_digits
scan_digits-digit b acc d rest h = ground (arith, h)

pub scan_digits-digit_runes :
    (b : Bool) (d : ℕ) (ds rest : List ℕ)
    → AllDigits (d ∷ ds)
    → scan_digits b 0 (digit_runes (d ∷ ds) rest) ≡ scan_digits true (value (d ∷ ds)) rest
unfolding digit_runes value
scan_digits-digit_runes b d [] rest h =
    scan_digits-digit b 0 d rest h.0 ∙ ap (λ v. scan_digits true v rest) (omega arith)
scan_digits-digit_runes b d (e ∷ ds) rest h =
    scan_digits-digit_runes b e ds ((b'0' + d) ∷ rest) h.1
    ∙ scan_digits-digit true (value (e ∷ ds)) d rest h.0
    ∙ ap (λ v. scan_digits true v rest) (omega arith)
