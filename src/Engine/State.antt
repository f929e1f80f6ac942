-- ===== src/Engine/State.antt =====
-- internal/correlate/engine.go: the state of an `Engine` over any store, and the small steps that the
-- handlers are made of. The calls of the builder and of the metric sink are kept, newest first.
use tracearr.Prelude.{ℕ, String, List, [], ◌∷◌, Option, none, some, if◌then◌else◌}
use tracearr.Prelude.Clock.{Time}
use tracearr.Prelude.Map
use tracearr.Prelude.Map.{Map}
use tracearr.Event.{MediaKey, key_eq, Event, series_key, is_tv}
use tracearr.Store.{Store, TraceState}
use tracearr.Engine.Calls.{Context, Call, Metric}

pub record LifecycleTiming : Type 0 where
  pub opened_at : Time
  pub approved_at : Time
  pub grabbed_at : Time
  pub download_started_at : Time
  pub download_ended_at : Time
  pub indexer : String
  pub download_client : String
  pub protocol : String
  pub media_type : String
  pub source : String

pub record PendingDownload : Type 0 where
  pub event : Event
  pub added_at : Time

pub record Engine (S : Store) : Type 0 where
  pub store : S.State
  pub ctx_by_key : Map MediaKey Context
  pub pending_dl : Map String PendingDownload
  pub pending_dl_ttl : ℕ
  pub timing : Map MediaKey LifecycleTiming
  pub calls : List Call
  pub metrics : List Metric

module _ {S : Store} where
  unfoldable pub new : S.State → ℕ → Engine S
  new store pending_dl_ttl = record {
    store = store;
    ctx_by_key = [];
    pending_dl = [];
    pending_dl_ttl = pending_dl_ttl;
    timing = [];
    calls = [];
    metrics = [];
  }

  unfoldable pub emit : Call → Engine S → Engine S
  emit c e = record e { calls = c ∷ e.calls }

  unfoldable pub measure : Metric → Engine S → Engine S
  measure m e = record e { metrics = m ∷ e.metrics }

  unfoldable pub put : TraceState → Engine S → Engine S
  put state e = record e { store = S.put e.store state }

  -- e.ctxByKey[key], the nil interface where there is none
  unfoldable pub context_of : Engine S → MediaKey → Context
  context_of e key = elim (Map.get key e.ctx_by_key) [ none ↦ Context.nil | some c ↦ c ]

  -- if t := e.timing[key]; t != nil { *t = f(*t) }
  unfoldable pub update_timing :
      MediaKey → (LifecycleTiming → LifecycleTiming) → Engine S → Engine S
  update_timing key f e = elim (Map.get key e.timing) [
    | none ↦ e
    | some t ↦ record e { timing = Map.insert key (f t) e.timing }
  ]

  -- the record of the key, or for a series that of the whole series
  unfoldable pub resolve_trace : Engine S → MediaKey → Option (TraceState × MediaKey)
  resolve_trace e k = elim (S.get e.store k) [
    | some s ↦ some (s, k)
    | none ↦
        if is_tv k
        then elim (S.get e.store (series_key k)) [ some s ↦ some (s, series_key k) | none ↦ none ]
        else none
  ]
