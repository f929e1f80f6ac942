-- ===== src/Examples/Searches.antt =====
-- internal/correlate/engine.go: a Prowlarr query against the trace of a show.
use tracearr.Prelude.{ℕ, ◌≡◌, refl, true, List, [], ◌∷◌, some, inl, is_some, string_eq}
use tracearr.Prelude.Map
use tracearr.Event.{MediaKey, key_eq, key_beq}
use tracearr.Store.{TraceState}
use tracearr.Store.Memory
use tracearr.Store.Memory.{memory_store}
use tracearr.Engine.Calls.{Context}
use tracearr.Engine.State.{Engine}
use tracearr.Engine.State
use tracearr.Engine.Titles.{
  is_word_rune, keep_word_runes, has_prefix, contains_text, normalise_title, titles_match,
  matches_record, find_title, lookup_by_title,
}
use tracearr.Prelude.Text.{runes}
use tracearr.Engine.TitleMatch.{Among, Overlap, lookup_by_title_sound, lookup_by_title_complete}
use tracearr.Examples.{ascii_lower, fresh, opened_record, episode_key}

abbrev in_flight : Engine memory_store
in_flight = record fresh {
  store = record (Memory.new 1000 1000) { by_key = (episode_key, opened_record) ∷ [] };
  ctx_by_key = (episode_key, Context.live 1 1) ∷ [];
}

abbrev query : List ℕ
query = runes "The Show - S01"

query_found : lookup_by_title ascii_lower in_flight query ≡ some (Context.live 1 1)
unfolding lookup_by_title find_title matches_record titles_match normalise_title keep_word_runes
    is_word_rune has_prefix contains_text State.new Memory.new Memory.get Map.get key_beq
query_found = refl

lookup_by_title_sound_example :
    (k : MediaKey) × Among k (Context.live 1 1) in_flight.ctx_by_key
    × ((t : TraceState) × (memory_store.get in_flight.store k ≡ some t)
        × Overlap ascii_lower query (runes t.title))
lookup_by_title_sound_example =
    lookup_by_title_sound ascii_lower in_flight query (Context.live 1 1) query_found

query_overlaps : Overlap ascii_lower query (runes "Show")
unfolding normalise_title keep_word_runes is_word_rune
query_overlaps = (inl (runes "the", runes "s01", refl), refl, refl)

lookup_by_title_complete_example : is_some (lookup_by_title ascii_lower in_flight query) ≡ true
unfolding State.new Memory.new Memory.get Map.get key_beq
lookup_by_title_complete_example =
    lookup_by_title_complete ascii_lower in_flight query episode_key (Context.live 1 1)
      opened_record ([], [], refl) refl refl query_overlaps
