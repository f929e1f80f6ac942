-- ===== src/Engine/Runs.antt =====
-- internal/correlate/engine.go over a whole life of the process: the calls of the receivers, the
-- pollers and the janitor, in any order. Each takes the engine's mutex, so that a run is a list.
use tracearr.Prelude.{ℕ, ◌≡◌, false, String, List, [], ◌∷◌, none, arith, Bool-cases, inl, inr}
use tracearr.Prelude.Int.{ℤ}
use tracearr.Prelude.Clock.{Time}
use tracearr.Prelude.Map
use tracearr.Event.{
  MediaKey, Event, Phase, request_opened, request_approved, request_closed, grabbed, download_start,
  download_done, imported, manual_needed, unknown,
}
use tracearr.Store.{Store, KeyLaws, SpanId}
use tracearr.Engine.Calls.{Context, Builder}
use tracearr.Engine.State.{Engine, new}
use tracearr.Engine.Titles.{emit_prowlarr_search}
use tracearr.Engine.Queue.{note_queue_issue}
use tracearr.Engine.Lifetime.{sweep}
use tracearr.Engine.Process.{dispatch, process}
use tracearr.Engine.OpenSpans.{is_open, owned, NoLeak}
use tracearr.Engine.NoLeak.Requests.{
  on_request_opened-NoLeak, on_request_approved-NoLeak, on_request_closed-NoLeak,
}
use tracearr.Engine.NoLeak.Downloads.{on_download_start-NoLeak, on_download_done-NoLeak}
use tracearr.Engine.NoLeak.Grabs.{on_grabbed-NoLeak}
use tracearr.Engine.NoLeak.Imports.{
  on_imported-NoLeak, on_manual_needed-NoLeak, note_queue_issue-NoLeak,
}
use tracearr.Engine.NoLeak.Lifetime.{sweep-NoLeak}
use tracearr.Engine.Coherence.Defs.{Coherent, Coherent-same}
use tracearr.Engine.Coherence.Requests.{
  on_request_opened-Coherent, on_request_approved-Coherent, on_request_closed-Coherent,
}
use tracearr.Engine.Coherence.Downloads.{on_download_start-Coherent, on_download_done-Coherent}
use tracearr.Engine.Coherence.Grabs.{on_grabbed-Coherent}
use tracearr.Engine.Coherence.Imports.{
  on_imported-Coherent, on_manual_needed-Coherent, note_queue_issue-Coherent,
}
use tracearr.Engine.Coherence.Lifetime.{sweep-Coherent}

pub data Action : Type 0 where
  deliver : Context → Event → Action
  search : String → String → Time → ℤ → Action
  stall : String → String → String → Time → Action
  tidy : Time → ℕ → Action

module _ (to_lower : ℕ → ℕ) (B : Builder) {S : Store} where
  unfoldable pub act : Action → Engine S → Engine S
  act (deliver ctx ev) e = process B ctx ev e
  act (search query indexer when ms) e = emit_prowlarr_search to_lower query indexer when ms e
  act (stall id status msg when) e = note_queue_issue id status msg when e
  act (tidy now ttl) e = sweep now ttl e

  unfoldable pub run : List Action → Engine S → Engine S
  run [] e = e
  run (a ∷ rest) e = run rest (act a e)

-- The records and the contexts agree, and every open child span has an owner.
pub record Sound (B : Builder) {S : Store} (L : KeyLaws S) (e : Engine S) : Type 0 where
  pub coherent : Coherent L e
  pub no_leak : NoLeak B e

module _ (to_lower : ℕ → ℕ) (B : Builder) {S : Store} where
  emit_prowlarr_search-open :
      (query indexer : String) (when : Time) (ms : ℤ) (e : Engine S) (id : SpanId)
      → is_open B (emit_prowlarr_search to_lower query indexer when ms e).calls id
        ≡ is_open B e.calls id
  unfolding emit_prowlarr_search is_open
  emit_prowlarr_search-open query indexer when ms e id = ground arith

  emit_prowlarr_search-traces :
      (query indexer : String) (when : Time) (ms : ℤ) (e : Engine S)
      → let e' = emit_prowlarr_search to_lower query indexer when ms e in
        (e'.store ≡ e.store) × (e'.ctx_by_key ≡ e.ctx_by_key)
  unfolding emit_prowlarr_search
  emit_prowlarr_search-traces query indexer when ms e = ground arith

module _ (B : Builder) {S : Store} (L : KeyLaws S) where
  open L use {Wf-seen_event, get-seen_event}

  dispatch-Sound :
      (p : Phase) (ctx : Context) (ev : Event) (e : Engine S)
      → Sound B L e
      → Sound B L (dispatch B p ctx ev e)
  unfolding dispatch
  dispatch-Sound request_opened ctx ev e h = record {
    coherent = on_request_opened-Coherent L B ctx ev e h.coherent;
    no_leak = on_request_opened-NoLeak B L ctx ev e h.no_leak;
  }
  dispatch-Sound request_approved ctx ev e h = record {
    coherent = on_request_approved-Coherent L ev e h.coherent;
    no_leak = on_request_approved-NoLeak B L ev e h.coherent.wf h.no_leak;
  }
  dispatch-Sound request_closed ctx ev e h = record {
    coherent = on_request_closed-Coherent L ev e h.coherent;
    no_leak = on_request_closed-NoLeak B L ev e h.no_leak;
  }
  dispatch-Sound grabbed ctx ev e h = record {
    coherent = on_grabbed-Coherent B L ctx ev e h.coherent;
    no_leak = on_grabbed-NoLeak B L ctx ev e h.coherent.wf h.no_leak;
  }
  dispatch-Sound download_start ctx ev e h = record {
    coherent = on_download_start-Coherent L B ev e h.coherent;
    no_leak = on_download_start-NoLeak B L ev e h.coherent.wf h.no_leak;
  }
  dispatch-Sound download_done ctx ev e h = record {
    coherent = on_download_done-Coherent L ev e h.coherent;
    no_leak = on_download_done-NoLeak B L ev e h.coherent.wf h.no_leak;
  }
  dispatch-Sound imported ctx ev e h = record {
    coherent = on_imported-Coherent L ev e h.coherent;
    no_leak = on_imported-NoLeak B L ev e h.coherent.wf h.no_leak;
  }
  dispatch-Sound manual_needed ctx ev e h = record {
    coherent = on_manual_needed-Coherent L ev e h.coherent;
    no_leak = on_manual_needed-NoLeak B L ev e h.coherent.wf h.no_leak;
  }
  dispatch-Sound (unknown _) ctx ev e h = h

  -- The store has only noted the event.
  noted-Sound :
      (ev : Event) (e : Engine S)
      → Sound B L e
      → Sound B L
          (record e { store = (S.seen_event e.store ev.source ev.event_id ev.occurred_at).1 })
  noted-Sound ev e h = record {
    coherent = record {
      wf = Wf-seen_event e.store ev.source ev.event_id ev.occurred_at h.coherent.wf;
      paired = λ k.
          rw (get-seen_event e.store ev.source ev.event_id ev.occurred_at k) (h.coherent.paired k);
    };
    no_leak = λ id opened.
        let (k, has) = h.no_leak id opened in
        (k, rw (get-seen_event e.store ev.source ev.event_id ev.occurred_at k) has);
  }

  pub process-Sound :
      (ctx : Context) (ev : Event) (e : Engine S) → Sound B L e → Sound B L (process B ctx ev e)
  unfolding process
  process-Sound ctx ev e h =
      let (fresh, s) = S.seen_event e.store ev.source ev.event_id ev.occurred_at in
      let noted : Sound B L (record e { store = s }) = noted-Sound ev e h in
      elim (Bool-cases fresh) [
        | inl yes_fresh ↦
            rw yes_fresh (dispatch-Sound ev.phase ctx ev (record e { store = s }) noted)
        | inr duplicate ↦ rw duplicate noted
      ]

module _ (to_lower : ℕ → ℕ) (B : Builder) {S : Store} (L : KeyLaws S) where
  act-Sound : (a : Action) (e : Engine S) → Sound B L e → Sound B L (act to_lower B a e)
  unfolding act
  act-Sound (deliver ctx ev) e h = process-Sound B L ctx ev e h
  act-Sound (search query indexer when ms) e h =
      let e' = emit_prowlarr_search to_lower query indexer when ms e in
      let same = emit_prowlarr_search-traces to_lower B query indexer when ms e in
      record {
        coherent = Coherent-same L e e' same.0 same.1 h.coherent;
        no_leak = λ id opened.
            let (k, has) =
              h.no_leak id
                (rw (emit_prowlarr_search-open to_lower B query indexer when ms e id) at opened) in
            (k, rw same.0 has);
      }
  act-Sound (stall id status msg when) e h = record {
    coherent = note_queue_issue-Coherent L id status msg when e h.coherent;
    no_leak = note_queue_issue-NoLeak B L id status msg when e h.coherent.wf h.no_leak;
  }
  act-Sound (tidy now ttl) e h = record {
    coherent = sweep-Coherent L now ttl e h.coherent;
    no_leak = sweep-NoLeak B L now ttl e h.no_leak;
  }

  -- Over any store that keeps its promises and any builder, from a state that is sound, whatever
  -- webhooks, polls and sweeps come, and in whatever order, every trace in flight has its record
  -- and its root context or neither, every record stands under its own key, and every child span
  -- that was opened and not closed is the grab or the download that the record of a trace in flight
  -- names.
  pub run-Sound :
      (actions : List Action) (e : Engine S) → Sound B L e → Sound B L (run to_lower B actions e)
  unfolding run
  run-Sound [] e h = h
  run-Sound (a ∷ rest) e h = run-Sound rest (act to_lower B a e) (act-Sound a e h)

  pub new-Sound :
      (s : S.State) (ttl : ℕ) → L.Wf s → ((k : MediaKey) → S.get s k ≡ none) → Sound B L (new s ttl)
  unfolding new Map.get is_open
  new-Sound s ttl wf empty = record {
    coherent = record { wf = wf; paired = λ k. rw (empty k) };
    no_leak = λ id opened. cc;
  }

  -- After any run from a sound state, over a store that keeps its promises: where no trace is left in
  -- flight, no child span is left open.
  pub run_quiet :
      (actions : List Action) (e : Engine S)
      → Sound B L e
      → ((k : MediaKey) → S.get (run to_lower B actions e).store k ≡ none)
      → (id : SpanId) → is_open B (run to_lower B actions e).calls id ≡ false
  unfolding owned
  run_quiet actions e h quiet id =
      let after = run to_lower B actions e in
      elim (Bool-cases (is_open B after.calls id)) [
        | inr closed ↦ closed
        | inl opened ↦ let (k, has) = (run-Sound actions e h).no_leak id opened in cc (quiet k, has)
      ]
