-- ===== src/Pollers/Prowlarr.antt =====
-- internal/poller/prowlarr.go: `tick`, which hands the new entries of the search history to the
-- engine.
use tracearr.Prelude.{ℕ, String, List, [], ◌∷◌, Option, none, some, if◌then◌else◌, ltb}
use tracearr.Prelude.Int.{ℤ}
use tracearr.Prelude.Clock.{Time, is_zero}
use tracearr.Store.{Store}
use tracearr.Engine.State.{Engine}
use tracearr.Engine.Titles.{emit_prowlarr_search}

pub record HistoryRecord : Type 0 where
  pub date : Time
  pub indexer : String
  pub query : String
  pub elapsed_ms : String

-- the later of the two
abbrev pub later : Time → Time → Time
later newest date = if ltb newest date then date else newest

-- The entries after the cursor, and the latest of their dates; `newest` is the latest so far.
unfoldable pub scan : Time → Time → List HistoryRecord → List HistoryRecord × Time
scan prev newest [] = ([], newest)
scan prev newest (r ∷ rest) =
    let (others, last) = scan prev (later newest r.date) rest in
    let skipped = scan prev newest rest in if ltb prev r.date then (r ∷ others, last) else skipped

-- What a tick emits, and the cursor that it leaves.
unfoldable pub tick : Time → Option (List HistoryRecord) → List HistoryRecord × Time
tick cursor none = ([], cursor)
tick cursor (some records) =
    let (found, newest) = scan cursor 0 records in
    (found, if is_zero newest then cursor else newest)

module _ (to_lower : ℕ → ℕ) (elapsed : String → ℤ) {S : Store} where
  -- Each entry becomes a search; `elapsed` is time.ParseDuration of the text with "ms", in
  -- milliseconds.
  unfoldable pub emit_all : List HistoryRecord → Engine S → Engine S
  emit_all [] e = e
  emit_all (r ∷ rest) e =
      emit_all rest
        (emit_prowlarr_search to_lower r.query r.indexer r.date (elapsed r.elapsed_ms) e)
