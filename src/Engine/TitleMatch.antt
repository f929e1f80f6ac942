-- ===== src/Engine/TitleMatch.antt =====
-- internal/correlate/engine.go: which context `lookupByTitle` finds.
use tracearr.Prelude.{
  ℕ, ◌≡◌, refl, true, false, List, [], ◌∷◌, ◌++◌, Option, none, some, arith, Bool-cases, inl, inr,
  ◌⊎◌, ◌==◌, string_eq, is_some,
}
use tracearr.Prelude.Lists.{is_empty}
use tracearr.Prelude.Map.{Map}
use tracearr.Event.{MediaKey}
use tracearr.Store.{Store, TraceState}
use tracearr.Engine.Calls.{Context}
use tracearr.Engine.State.{Engine}
use tracearr.Engine.Titles.{
  has_prefix, contains_text, normalise_title, titles_match, matches_record, find_title,
  lookup_by_title,
}
use tracearr.Prelude.Text.{runes}

-- `t` stands in `s`.
abbrev pub Within : List ℕ → List ℕ → Type 0
Within t s = (before : List ℕ) × (after : List ℕ) × (s ≡ before ++ (t ++ after))

has_prefix-split : (s t : List ℕ) → has_prefix s t ≡ true → (after : List ℕ) × (s ≡ t ++ after)
unfolding has_prefix
has_prefix-split s [] h = (s, refl)
has_prefix-split [] (p ∷ ps) h = cc
has_prefix-split (r ∷ s) (p ∷ ps) h =
    let (after, split) = has_prefix-split s ps (ground arith) in
    let same : r ≡ p = ground arith in (after, cc (same, split))

contains_text-Within : (s t : List ℕ) → contains_text s t ≡ true → Within t s
unfolding contains_text
contains_text-Within [] [] h = ([], [], refl)
contains_text-Within [] (p ∷ ps) h = cc
contains_text-Within (r ∷ s) t h = elim (Bool-cases (has_prefix (r ∷ s) t)) [
  | inl here ↦ let (after, split) = has_prefix-split (r ∷ s) t here in ([], after, split)
  | inr further ↦
      let (before, after, split) = contains_text-Within s t (ground arith) in
      (r ∷ before, after, cc split)
]

has_prefix-append : (t after : List ℕ) → has_prefix (t ++ after) t ≡ true
unfolding has_prefix
has_prefix-append [] after = refl
has_prefix-append (p ∷ ps) after = ground (arith, has_prefix-append ps after)

contains_text-append : (before t after : List ℕ) → contains_text (before ++ (t ++ after)) t ≡ true
unfolding contains_text has_prefix
contains_text-append [] [] [] = refl
contains_text-append [] [] (r ∷ after) = refl
contains_text-append [] (p ∷ ps) after = ground (arith, has_prefix-append (p ∷ ps) after)
contains_text-append (r ∷ before) t after = ground (arith, contains_text-append before t after)

Within-contains_text : (s t : List ℕ) → Within t s → contains_text s t ≡ true
Within-contains_text s t (before, after, split) = rw split (contains_text-append before t after)

-- The entry stands in the map's list.
abbrev pub Among : MediaKey → Context → Map MediaKey Context → Type 0
Among k ctx m =
    (before : List (MediaKey × Context)) × (after : List (MediaKey × Context)) × (m
      ≡ before ++ (k, ctx) ∷ after)

module _ (to_lower : ℕ → ℕ) where
  -- One of two normal forms, neither of them empty, stands in the other.
  abbrev pub Overlap : List ℕ → List ℕ → Type 0
  Overlap q title =
      (Within (normalise_title to_lower title) (normalise_title to_lower q)
        ⊎ Within (normalise_title to_lower q) (normalise_title to_lower title))
      × (is_empty (normalise_title to_lower q) ≡ false)
      × (is_empty (normalise_title to_lower title) ≡ false)

  titles_match-Overlap :
      (q title : List ℕ)
      → is_empty (normalise_title to_lower q) ≡ false
      → titles_match to_lower (normalise_title to_lower q) title ≡ true
      → Overlap q title
  unfolding titles_match
  titles_match-Overlap q title some_q h =
      let qn = normalise_title to_lower q in
      let tn = normalise_title to_lower title in
      (
        elim (Bool-cases (contains_text qn tn)) [
          | inl in_query ↦ inl (contains_text-Within qn tn in_query)
          | inr not_in_query ↦ inr (contains_text-Within tn qn (ground arith))
        ],
        some_q,
        ground arith,
      )

  found-record :
      (qn : List ℕ) (find : MediaKey → Option TraceState) (m : Map MediaKey Context) (ctx : Context)
      → find_title to_lower qn find m ≡ some ctx
      → (k : MediaKey) × Among k ctx m × (matches_record to_lower qn (find k) ≡ true)
  unfolding find_title
  found-record qn find [] ctx h = cc
  found-record qn find ((k, c) ∷ rest) ctx h =
      elim (Bool-cases (matches_record to_lower qn (find k))) [
        | inl matches ↦ let same : c ≡ ctx = ground arith in (k, ([], rest, cc), matches)
        | inr other ↦
            let (j, (before, after, at), matches) = found-record qn find rest ctx (ground arith) in
            (j, ((k, c) ∷ before, after, cc), matches)
      ]

  matches-title :
      (q : List ℕ) (o : Option TraceState)
      → is_empty (normalise_title to_lower q) ≡ false
      → matches_record to_lower (normalise_title to_lower q) o ≡ true
      → (t : TraceState) × (o ≡ some t) × Overlap q (runes t.title)
  unfolding matches_record
  matches-title q none some_q h = cc
  matches-title q (some t) some_q h =
      (t, refl, titles_match-Overlap q (runes t.title) some_q (ground arith))

  module _ {S : Store} where
    -- A context that a query finds is the root context of a trace in flight whose record has a
    -- title, such that of the normal forms of the query and the title, neither empty, one stands in
    -- the other.
    pub lookup_by_title_sound :
        (e : Engine S) (q : List ℕ) (ctx : Context)
        → lookup_by_title to_lower e q ≡ some ctx
        → (k : MediaKey) × Among k ctx e.ctx_by_key
          × ((t : TraceState) × (S.get e.store k ≡ some t) × Overlap q (runes t.title))
    unfolding lookup_by_title
    lookup_by_title_sound e q ctx found =
        let qn = normalise_title to_lower q in
        elim (Bool-cases (is_empty qn)) [
          | inl nothing ↦ cc (nothing, found)
          | inr some_q ↦
              let (k, among, matches) =
                found-record qn (S.get e.store) e.ctx_by_key ctx (rw some_q at found) in
              (k, among, matches-title q (S.get e.store k) some_q matches)
        ]

  Overlap-titles_match :
      (q title : List ℕ)
      → Overlap q title
      → titles_match to_lower (normalise_title to_lower q) title ≡ true
  unfolding titles_match
  Overlap-titles_match q title (inl in_query, some_q, some_t) = ground (
    arith,
    Within-contains_text (normalise_title to_lower q) (normalise_title to_lower title) in_query,
  )
  Overlap-titles_match q title (inr in_title, some_q, some_t) = ground (
    arith,
    Within-contains_text (normalise_title to_lower title) (normalise_title to_lower q) in_title,
  )

  find_title-among :
      (qn : List ℕ) (find : MediaKey → Option TraceState) (before after : Map MediaKey Context)
      (k : MediaKey) (ctx : Context)
      → matches_record to_lower qn (find k) ≡ true
      → is_some (find_title to_lower qn find (before ++ (k, ctx) ∷ after)) ≡ true
  unfolding find_title
  find_title-among qn find [] after k ctx matches = rw matches
  find_title-among qn find ((j, c) ∷ before) after k ctx matches =
      ground (arith, find_title-among qn find before after k ctx matches)

  module _ {S : Store} where
    -- Where a trace in flight has a context and a record with a title, such that of the normal
    -- forms of a query and the title, neither empty, one stands in the other, the query finds some
    -- context.
    pub lookup_by_title_complete :
        (e : Engine S) (q : List ℕ) (k : MediaKey) (ctx : Context) (t : TraceState)
        → Among k ctx e.ctx_by_key
        → S.get e.store k ≡ some t
        → (t.title == "") ≡ false
        → Overlap q (runes t.title)
        → is_some (lookup_by_title to_lower e q) ≡ true
    unfolding lookup_by_title matches_record
    lookup_by_title_complete e q k ctx t (before, after, at) there titled overlap =
        let qn = normalise_title to_lower q in
        let matches : matches_record to_lower qn (S.get e.store k) ≡ true =
          rw there (ground (arith, titled, Overlap-titles_match q (runes t.title) overlap)) in
        rw (overlap.1, at) (find_title-among qn (S.get e.store) before after k ctx matches)
