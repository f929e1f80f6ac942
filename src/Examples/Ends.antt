-- ===== src/Examples/Ends.antt =====
-- cmd/tracearr/main.go: the janitor after one request.
use tracearr.Prelude.{◌≡◌, ◌≤◌, false, none, some, arith}
use tracearr.Prelude.Map
use tracearr.Event.{MediaKey, key_eq}
use tracearr.Store.{TraceState}
use tracearr.Store.Memory.{memory_store}
use tracearr.Store.Memory.Records.{memory_store-KeyLaws}
use tracearr.Engine.OpenSpans.{is_open}
use tracearr.Engine.Runs.{run}
use tracearr.Engine.Drains.{janitor, janitor_drains}
use tracearr.Examples.{numbering, ascii_lower, episode_key}
use tracearr.Examples.Lives.{once, once-Sound, once_records}

once_untouched :
    (j : MediaKey) (t : TraceState) → memory_store.get once.store j ≡ some t → t.updated_at ≤ 100
once_untouched j t there = ground (arith, there, once_records j)

janitor_drains_example :
    (memory_store.get (run ascii_lower numbering (janitor 1 0 100) once).store episode_key ≡ none)
    × (Map.get episode_key (run ascii_lower numbering (janitor 1 0 100) once).ctx_by_key ≡ none)
    × (is_open numbering (run ascii_lower numbering (janitor 1 0 100) once).calls 2 ≡ false)
janitor_drains_example =
    janitor_drains ascii_lower numbering memory_store-KeyLaws.0 0 0 100 100 once episode_key 2
      once-Sound once_untouched (ground arith)
