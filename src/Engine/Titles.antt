-- ===== src/Engine/Titles.antt =====
-- internal/correlate/engine.go: `normaliseTitle`, `lookupByTitle` and `EmitProwlarrSearch`. A title
-- is the list of its runes; `strings.ToLower` is a parameter on runes, so that nothing is assumed
-- of Unicode's tables but what a theorem says.
use Prim.Native.String.{String}
use tracearr.Prelude.{
  ℕ, ◌+◌, ◌*◌, Bool, true, false, not, ◌&&◌, ◌||◌, List, [], ◌∷◌, map, Option, none, some, nat_beq,
  leb, ltb, ◌==◌, string_eq, ◌-◌, ◌%◌, ◌^◌, if◌then◌else◌,
}
use tracearr.Prelude.Text.{runes}
use tracearr.Prelude.Int.{ℤ, pos, negsuc, of_bits}
use tracearr.Prelude.Lists.{is_empty}
use tracearr.Prelude.Clock.{Time}
use tracearr.Prelude.Map.{Map}
use tracearr.Event.{MediaKey}
use tracearr.Store.{Store, TraceState}
use tracearr.Spans.Schema
use tracearr.Spans.Schema.{Attr, text, int}
use tracearr.Engine.Calls.{Context, synthetic_span}
use tracearr.Engine.State.{Engine, emit}
use tracearr.Engine.Attributes.{positive_attr}

-- (r >= 'a' && r <= 'z') || (r >= '0' && r <= '9')
unfoldable pub is_word_rune : ℕ → Bool
is_word_rune r = leb b'a' r && leb r b'z' || leb b'0' r && leb r b'9'

unfoldable pub keep_word_runes : List ℕ → List ℕ
unfolding is_word_rune
keep_word_runes [] = []
keep_word_runes (r ∷ s) = let rest = keep_word_runes s in if is_word_rune r then r ∷ rest else rest

-- strings.HasPrefix and strings.Contains
unfoldable pub has_prefix : List ℕ → List ℕ → Bool
has_prefix s [] = true
has_prefix [] (p ∷ ps) = false
has_prefix (r ∷ s) (p ∷ ps) = nat_beq r p && has_prefix s ps

unfoldable pub contains_text : List ℕ → List ℕ → Bool
unfolding has_prefix
contains_text [] t = is_empty t
contains_text (r ∷ s) t = has_prefix (r ∷ s) t || contains_text s t

-- t.Add(time.Duration(ms) * time.Millisecond), where the product wraps as an int64
unfoldable pub add_milliseconds : Time → ℕ → Time
add_milliseconds t ms = elim (of_bits (ms * 1000000 % 2 ^ 64)) [
  | pos d ↦ t + d
  | negsuc d ↦ t - (d + 1)
]

-- The end of a search that took `ms`.
unfoldable pub search_end : Time → ℤ → Time
unfolding add_milliseconds
search_end when (pos ms) = if ltb 0 ms then add_milliseconds when ms else when
search_end when (negsuc ms) = when

unfoldable pub search_attrs : String → String → ℤ → List Attr
unfolding positive_attr
search_attrs query indexer elapsed_ms =
    (Schema.media_indexer, text indexer)
    ∷ (Schema.media_search_query, text query)
    ∷ positive_attr Schema.prowlarr_elapsed_ms elapsed_ms

module _ (to_lower : ℕ → ℕ) where
  unfoldable pub normalise_title : List ℕ → List ℕ
  unfolding keep_word_runes
  normalise_title s = keep_word_runes (map to_lower s)

  -- One title contains the other, in the normal form.
  unfoldable pub titles_match : List ℕ → List ℕ → Bool
  unfolding normalise_title contains_text
  titles_match qn title =
      let tn = normalise_title title in
      not (is_empty tn) && (contains_text qn tn || contains_text tn qn)

  -- A record with a title that matches.
  unfoldable pub matches_record : List ℕ → Option TraceState → Bool
  unfolding titles_match
  matches_record qn none = false
  matches_record qn (some state) = not (state.title == "") && titles_match qn (runes state.title)

  -- The loop over the contexts, with `find` for e.store.Get.
  unfoldable pub find_title :
      List ℕ → (MediaKey → Option TraceState) → Map MediaKey Context → Option Context
  unfolding matches_record
  find_title qn find [] = none
  find_title qn find ((k, ctx) ∷ rest) =
      let later = find_title qn find rest in if matches_record qn (find k) then some ctx else later

  module _ {S : Store} where
    unfoldable pub lookup_by_title : Engine S → List ℕ → Option Context
    unfolding find_title
    lookup_by_title e q =
        let qn = normalise_title q in
        if is_empty qn then none else find_title qn (S.get e.store) e.ctx_by_key

    unfoldable pub emit_prowlarr_search : String → String → Time → ℤ → Engine S → Engine S
    unfolding emit
    emit_prowlarr_search query indexer when elapsed_ms e =
        let attrs = search_attrs query indexer elapsed_ms in
        let end = search_end when elapsed_ms in
        elim (lookup_by_title e (runes query)) [
          | some root_ctx ↦
              emit (synthetic_span root_ctx Schema.span_prowlarr_search "CLIENT" when end attrs) e
          | none ↦ emit (synthetic_span Context.todo "prowlarr.unmatched" "CLIENT" when end attrs) e
        ]
