-- ===== src/Store/Disk/KeyRoundTrip.antt =====
-- internal/correlate/store_bolt.go: `decodeMediaKey` after `encodeMediaKey`.
use tracearr.Prelude.{
  ℕ, suc, ◌+◌, ◌≡◌, refl, false, String, [], ◌∷◌, some, none, arith, nat_eq, ap, ◌∙◌,
}
use tracearr.Prelude.Int.{ℤ, pos, negsuc}
use tracearr.Prelude.Lists.{contains}
use tracearr.Prelude.Text.{decimal, digits, runes}
use tracearr.Event.{MediaKey}
use tracearr.Store.Disk.Keys.{
  cut_bar, split_bars, with_bar, encode_media_key, decode_media_key, decode_parts, key_of,
}
use tracearr.Store.Disk.Decimals.{digits-AllDigits, contains-digit_runes}
use tracearr.Store.Disk.Scans.{FitsInt, runes-decimal_pos, runes-decimal_neg, scan_four-decimal}
use Prim.Native.String.{◌++◌ as str_append}
use text.Mathlib.TextLemmas.{nil-append, cons-append}

-- The type has no bar, and the numbers are Go's ints.
pub record IsEncodable (k : MediaKey) : Type 0 where
  pub no_bar : contains (runes k.type) b'|' ≡ false
  pub tmdb : FitsInt k.tmdb
  pub tvdb : FitsInt k.tvdb
  pub season : FitsInt k.season
  pub episode : FitsInt k.episode

pub cut_bar-with_bar :
    (s rest : String) → contains (runes s) b'|' ≡ false → cut_bar (with_bar s rest) ≡ some (s, rest)
unfolding cut_bar contains
cut_bar-with_bar String.[] rest h =
    ap cut_bar (nil-append (str_append "|" rest) ∙ cons-append _ "" rest)
    ∙ rw (nil-append rest) refl
cut_bar-with_bar (String.◌∷◌ c s) rest h =
    ap cut_bar (cons-append c s (str_append "|" rest)) ∙ ground (arith, h, cut_bar-with_bar s rest)

contains-decimal : (z : ℤ) → contains (runes (decimal z)) b'|' ≡ false
unfolding contains
contains-decimal (pos n) =
    rw (runes-decimal_pos n)
      (contains-digit_runes (digits (suc n) n) [] (digits-AllDigits (suc n) n) refl)
contains-decimal (negsuc n) =
    rw (runes-decimal_neg n)
      (contains-digit_runes (digits (n + 2) (n + 1)) [] (digits-AllDigits (n + 2) (n + 1)) refl)

split_bars-with_bar :
    (n : ℕ) (s rest : String)
    → contains (runes s) b'|' ≡ false
    → split_bars (suc n) (with_bar s rest)
      ≡ elim (split_bars n rest) [ none ↦ none | some parts ↦ some (s ∷ parts) ]
unfolding split_bars
split_bars-with_bar n s rest h = rw (cut_bar-with_bar s rest h, split_bars) refl

-- A key that was encoded is decoded to itself, whatever its numbers, where its type has no bar.
pub decode_media_key-encode_media_key :
    (k : MediaKey) → IsEncodable k → decode_media_key (encode_media_key k) ≡ some k
unfolding decode_media_key encode_media_key split_bars decode_parts key_of
decode_media_key-encode_media_key k ok =
    let last = decimal k.episode in
    let season = with_bar (decimal k.season) last in
    let tvdb = with_bar (decimal k.tvdb) season in
    let tmdb = with_bar (decimal k.tmdb) tvdb in
    rw
      (
        split_bars-with_bar 3 k.type tmdb ok.no_bar,
        split_bars-with_bar 2 (decimal k.tmdb) tvdb (contains-decimal k.tmdb),
        split_bars-with_bar 1 (decimal k.tvdb) season (contains-decimal k.tvdb),
        split_bars-with_bar 0 (decimal k.season) last (contains-decimal k.season),
        scan_four-decimal k.tmdb k.tvdb k.season k.episode ok.tmdb ok.tvdb ok.season ok.episode,
      )
      refl
