-- ===== src/Examples/Stores.antt =====
-- internal/correlate/store.go: runs of memoryStore.
use tracearr.Prelude.{◌≡◌, refl, String, [], ◌∷◌, none, some, string_eq}
use tracearr.Prelude.Int.{pos}
use tracearr.Prelude.Map
use tracearr.Event.{key_eq, key_beq, series_key, available, failed}
use tracearr.Store.{TraceState, ClosedTrace}
use tracearr.Store.Memory.{MemoryStore, new, put, delete, get_by_download_id, recall_closed}
use tracearr.Store.Memory.Recall.{recall_expired_episode}
use tracearr.Store.Memory.Index.{found-regrabbed}
use tracearr.Examples.{opened_record, episode_key, whole_series}

abbrev old_episode : ClosedTrace
old_episode = record { trace_id = 1; attempt = pos 1; outcome = failed; closed_at = 100 }

abbrev new_series : ClosedTrace
new_series = record { trace_id = 2; attempt = pos 1; outcome = available; closed_at = 2000 }

abbrev two_closed : MemoryStore
two_closed = record (new 1000 1000) {
  closed = (episode_key, old_episode) ∷ (whole_series, new_series) ∷ [];
}

recall_expired_episode_example :
    ((recall_closed two_closed episode_key 2500).0 ≡ none)
    × ((recall_closed (recall_closed two_closed episode_key 2500).1 episode_key 2500).0
        ≡ some new_series)
unfolding new key_beq series_key Map.get
recall_expired_episode_example =
    recall_expired_episode two_closed episode_key 2500 old_episode new_series refl refl refl refl
      refl refl

abbrev had : String → TraceState
had id = record opened_record { download_id = id }

found-regrabbed_example :
    get_by_download_id
      (put (delete (put (put (new 1000 1000) (had "x")) (had "y")) episode_key) opened_record)
      "x"
    ≡ some opened_record
found-regrabbed_example =
    found-regrabbed (new 1000 1000) (had "x") (had "y") opened_record refl refl refl refl refl
