-- ===== src/Store/Disk/Keys.antt =====
-- internal/correlate/store_bolt.go: the names under which records stand on disk. `encode_media_key`
-- is fmt.Sprintf("%s|%d|%d|%d|%d"), `decode_media_key` strings.SplitN followed by fmt.Sscanf.
use tracearr.Prelude.{
  ℕ, zero, suc, ◌+◌, ◌-◌, ◌*◌, ◌^◌, Bool, true, false, not, ◌&&◌, ◌||◌, String, List, [], ◌∷◌, ◌++◌,
  Option, none, some, ltb, leb, nat_beq, if◌then◌else◌,
}
use tracearr.Prelude.Int.{ℤ, pos, negsuc}
use tracearr.Prelude.Text.{decimal, runes}
use tracearr.Event.{MediaKey}
use Prim.Native.String.{◌++◌ as str_append}
use Prim.Native.Char.{code}

-- texts joined by bars
abbrev pub with_bar : String → String → String
with_bar s rest = str_append s (str_append "|" rest)

unfoldable pub encode_media_key : MediaKey → String
encode_media_key k = with_bar k.type (
    with_bar (decimal k.tmdb)
      (with_bar (decimal k.tvdb) (with_bar (decimal k.season) (decimal k.episode))))

-- What stands in front of the first bar, and behind it; none without a bar.
unfoldable pub cut_bar : String → Option (String × String)
cut_bar String.[] = none
cut_bar (String.◌∷◌ c s) =
    let rest = cut_bar s in
    if nat_beq (code c) b'|'
    then some ("", s)
    else elim rest [ none ↦ none | some (before, after) ↦ some (String.◌∷◌ c before, after) ]

-- strings.SplitN(s, "|", n + 1), where it has that many parts
unfoldable pub split_bars : ℕ → String → Option (List String)
unfolding cut_bar
split_bars zero s = some (s ∷ [])
split_bars (suc n) s = elim (cut_bar s) [
  | none ↦ none
  | some (before, after) ↦ elim (split_bars n after) [
    | none ↦ none
    | some parts ↦ some (before ∷ parts)
  ]
]

-- The white space of fmt's scanner.
unfoldable pub is_space : ℕ → Bool
is_space r =
    leb 9 r && leb r 13
    || nat_beq r 32
    || nat_beq r 133
    || nat_beq r 160
    || nat_beq r 5760
    || leb 8192 r && leb r 8202
    || nat_beq r 8232
    || nat_beq r 8233
    || nat_beq r 8239
    || nat_beq r 8287
    || nat_beq r 12288

-- What follows white space; a line feed in it is an error.
unfoldable pub skip_space : List ℕ → Option (List ℕ)
unfolding is_space
skip_space [] = some []
skip_space (r ∷ rs) =
    let rest = skip_space rs in
    if nat_beq r 10 then none else if is_space r then rest else some (r ∷ rs)

-- The longest run of digits, as a number, and what follows it; none without a digit.
unfoldable pub scan_digits : Bool → ℕ → List ℕ → Option (ℕ × List ℕ)
scan_digits seen acc [] = if seen then some (acc, []) else none
scan_digits seen acc (r ∷ rs) =
    let rest = scan_digits true (acc * 10 + (r - b'0')) rs in
    if leb b'0' r && leb r b'9' then rest else if seen then some (acc, r ∷ rs) else none

-- strconv.ParseInt of the digits, with the sign before them: an error out of the range of int64
unfoldable pub signed : Bool → Option (ℕ × List ℕ) → Option (ℤ × List ℕ)
signed _ none = none
signed true (some (zero, rest)) = some (pos 0, rest)
signed true (some (suc n, rest)) = if ltb n (2 ^ 63) then some (negsuc n, rest) else none
signed false (some (n, rest)) = if ltb n (2 ^ 63) then some (pos n, rest) else none

-- The verb %d, which skips white space first.
unfoldable pub scan_sign : List ℕ → Option (ℤ × List ℕ)
unfolding signed scan_digits
scan_sign [] = none
scan_sign (r ∷ rs) =
    if nat_beq r b'-'
    then signed true (scan_digits false 0 rs)
    else if nat_beq r b'+'
    then signed false (scan_digits false 0 rs)
    else signed false (scan_digits false 0 (r ∷ rs))

unfoldable pub scan_int : List ℕ → Option (ℤ × List ℕ)
unfolding skip_space scan_sign
scan_int rs = elim (skip_space rs) [ none ↦ none | some rest ↦ scan_sign rest ]

-- The space between two verbs: white space or the end of the text; the next verb skips the rest.
unfoldable pub match_space : List ℕ → Option (List ℕ)
unfolding is_space
match_space [] = some []
match_space (r ∷ rs) = if is_space r && not (nat_beq r 10) then some rs else none

-- n further verbs, each after a space; what is left over is not looked at
unfoldable pub scan_more : ℕ → List ℕ → Option (List ℤ)
unfolding match_space scan_int
scan_more zero rs = some []
scan_more (suc n) rs = elim (match_space rs) [
  | none ↦ none
  | some spaced ↦ elim (scan_int spaced) [
    | none ↦ none
    | some (z, rest) ↦ elim (scan_more n rest) [ none ↦ none | some zs ↦ some (z ∷ zs) ]
  ]
]

-- fmt.Sscanf(text, "%d %d %d %d", ...)
unfoldable pub scan_four : List ℕ → Option (List ℤ)
unfolding scan_int scan_more
scan_four rs = elim (scan_int rs) [
  | none ↦ none
  | some (z, rest) ↦ elim (scan_more 3 rest) [ none ↦ none | some zs ↦ some (z ∷ zs) ]
]

unfoldable pub key_of : String → Option (List ℤ) → Option MediaKey
key_of type (some (tmdb ∷ tvdb ∷ season ∷ episode ∷ [])) =
    some (record { type = type; tmdb = tmdb; tvdb = tvdb; season = season; episode = episode })
key_of type _ = none

-- parts[1] + " " + parts[2] + " " + parts[3] + " " + parts[4]
unfoldable pub decode_parts : Option (List String) → Option MediaKey
unfolding scan_four key_of
decode_parts (some (type ∷ a ∷ b ∷ c ∷ d ∷ [])) =
    key_of type (scan_four (runes a ++ (32 ∷ runes b ++ (32 ∷ runes c ++ (32 ∷ runes d)))))
decode_parts _ = none

unfoldable pub decode_media_key : String → Option MediaKey
unfolding split_bars decode_parts
decode_media_key s = decode_parts (split_bars 4 s)
