-- ===== src/Engine/Gauges.antt =====
-- internal/correlate/engine.go: the in-flight gauges. `grab` is raised at every grab that has a
-- timing. `onRequestClosed` and `onImported` clear `HasGrab` before they test it, so that the branch
-- that lowers the gauge is never taken; and `Sweep` touches no gauge and no timing.
pub mod Rises
use tracearr.Prelude.{
  ℕ, suc, ◌+◌, ◌≡◌, refl, false, String, List, [], ◌∷◌, Option, none, some, arith, Option-cases,
  Bool-cases, inl, inr, ◌==◌, string_eq, ◌∙◌, ap,
}
use tracearr.Prelude.Int.{pos, negsuc}
use tracearr.Prelude.Clock.{Time}
use tracearr.Prelude.Map
use tracearr.Event.{MediaKey, key_eq, Event, Outcome, available}
use tracearr.Store.{Store, TraceState, ClosedTrace}
use tracearr.Spans.Schema
use tracearr.Engine.Calls.{Context, Builder, Metric, Gauge, adjust_in_flight}
use tracearr.Engine.State.{LifecycleTiming, Engine, context_of, update_timing, resolve_trace}
use tracearr.Engine.State
use tracearr.Engine.Requests.{
  request_reason, start_request, install_request, open_request, approve, close_download, close_grab,
  close_request_root, forget_trace, finish_timing, close_request,
}
use tracearr.Engine.Downloads.{
  time_download_start, start_download, open_download, handle_download_start, close_transfer,
  time_download_end, finish_download,
}
use tracearr.Engine.Grabs.{emit_search, supersede_grab, open_grab, time_grab, replay_download, grab}
use tracearr.Engine.Imports.{
  emit_import, time_import, close_orphan_root, close_orphan, finish_import,
}
use tracearr.Engine.Lifetime.{
  time_out_children, time_out_root, time_out, sweep_key, sweep_keys, sweep,
}
use tracearr.Engine.Records.Requests.{close_grab-state}

-- By how much the gauge of open grabs was lowered.
unfoldable pub grab_falls : List Metric → ℕ
grab_falls [] = 0
grab_falls (adjust_in_flight Gauge.grab (negsuc n) ∷ ms) = suc n + grab_falls ms
grab_falls (m ∷ ms) = grab_falls ms

-- The engine after a step has lowered it no more than before.
abbrev pub Level : {S : Store} → Engine S → Engine S → Type 0
Level e e' = grab_falls e'.metrics ≡ grab_falls e.metrics

module _ {S : Store} where
  finish_timing-Level :
      (key : MediaKey) (t : TraceState) (o : Outcome) (why : String) (ev : Event) (e : Engine S)
      → t.has_grab ≡ false
      → Level e (finish_timing key t o why ev e)
  unfolding finish_timing grab_falls
  finish_timing-Level key t o why ev e none_open = ground arith

  request_reason-Level :
      (ev : Event) (prior : Option ClosedTrace) (e : Engine S)
      → Level e (request_reason ev prior e).1
  unfolding request_reason
  request_reason-Level ev none e = refl
  request_reason-Level ev (some c) e = refl

  pub open_request-Level :
      (B : Builder) (ctx : Context) (ev : Event) (e : Engine S) → Level e (open_request B ctx ev e)
  unfolding open_request start_request install_request grab_falls
  open_request-Level B ctx ev e =
      let (prior, s) = S.recall_closed e.store ev.key ev.occurred_at in
      request_reason-Level ev prior (record e { store = s })

  pub approve-Level :
      (ev : Event) (t : TraceState) (key : MediaKey) (e : Engine S) → Level e (approve ev t key e)
  unfolding approve update_timing
  approve-Level ev t key e = ground arith

  pub close_request-Level :
      (ev : Event) (t : TraceState) (key : MediaKey) (e : Engine S)
      → Level e (close_request ev t key e)
  unfolding close_request forget_trace
  close_request-Level ev t key e =
      let ctx = context_of e key in
      let p = close_download ctx ev (t, e) in
      let q = close_grab ctx ev p in
      let closed = close_request_root ctx ev q.0 q.1 in
      finish_timing-Level key q.0 ev.outcome "" ev (forget_trace key q.0 ev.outcome ev closed)
        (ground (arith, close_grab-state ctx ev p.0 p.1))
      ∙ ap grab_falls (metrics-closed ctx)
    where
      metrics-closed :
          (ctx : Context)
          → let q = close_grab ctx ev (close_download ctx ev (t, e)) in
            (close_request_root ctx ev q.0 q.1).metrics ≡ e.metrics
      metrics-closed ctx = unfold close_download close_grab close_request_root in ground arith

  pub handle_download_start-Level :
      (B : Builder) (ctx : Context) (t : TraceState) (key : MediaKey) (ev : Event) (e : Engine S)
      → Level e (handle_download_start B ctx t key ev e)
  unfolding handle_download_start open_download start_download time_download_start grab_falls
  handle_download_start-Level B ctx t key ev e = ground arith

  pub finish_download-Level :
      (t : TraceState) (ev : Event) (e : Engine S) → Level e (finish_download t ev e)
  unfolding finish_download close_transfer time_download_end grab_falls
  finish_download-Level t ev e = ground arith

  pub grab-free :
      (root_ctx : Context) (ev : Event) (t : TraceState) (e : Engine S)
      → (supersede_grab root_ctx ev t (emit_search root_ctx ev t e)).1.metrics ≡ e.metrics
  unfolding supersede_grab emit_search
  grab-free root_ctx ev t e = ground arith

  time_grab-Level : (key : MediaKey) (ev : Event) (e : Engine S) → Level e (time_grab key ev e)
  unfolding time_grab grab_falls
  time_grab-Level key ev e = ground arith

  replay_download-Level :
      (B : Builder) (root_ctx : Context) (t : TraceState) (key : MediaKey) (ev : Event)
      (e : Engine S)
      → Level e (replay_download B root_ctx t key ev e)
  unfolding replay_download
  replay_download-Level B root_ctx t key ev e =
      elim (Option-cases (Map.get ev.release.download_id e.pending_dl)) [
        | inl absent ↦ rw (absent, replay_download)
        | inr (parked, there) ↦
            rw (there, replay_download)
              (elim (Bool-cases (ev.release.download_id == "")) [
                | inl no_id ↦ rw (no_id)
                | inr an_id ↦ rw (an_id) (
                    handle_download_start-Level B root_ctx t key parked.event
                      (record e { pending_dl = Map.delete ev.release.download_id e.pending_dl }))
              ])
      ]

  pub open_grab-metrics :
      (B : Builder) (root_ctx : Context) (ev : Event) (t : TraceState) (e : Engine S)
      → (open_grab B root_ctx ev t e).1.metrics ≡ e.metrics
  unfolding open_grab
  open_grab-metrics B root_ctx ev t e = refl

  pub grab-Level :
      (B : Builder) (ev : Event) (t : TraceState) (key : MediaKey) (e : Engine S)
      → Level e (grab B ev t key e)
  unfolding grab
  grab-Level B ev t key e =
      let ctx = context_of e key in
      let free = supersede_grab ctx ev t (emit_search ctx ev t e) in
      let opened = open_grab B ctx ev free.0 free.1 in
      replay_download-Level B ctx opened.0 key ev (time_grab key ev opened.1)
      ∙ time_grab-Level key ev opened.1
      ∙ ap grab_falls (open_grab-metrics B ctx ev free.0 free.1 ∙ grab-free ctx ev t e)

  import-metrics :
      (ctx : Context) (ev : Event) (t : TraceState) (e : Engine S)
      → let p = close_download ctx ev (t, e) in
        (close_grab ctx ev (p.0, emit_import ctx ev p.0 p.1)).1.metrics ≡ e.metrics
  unfolding close_download close_grab emit_import
  import-metrics ctx ev t e = ground arith

  time_import-Level : (key : MediaKey) (ev : Event) (e : Engine S) → Level e (time_import key ev e)
  unfolding time_import grab_falls
  time_import-Level key ev e = ground arith

  close_orphan-Level :
      (ctx : Context) (ev : Event) (t : TraceState) (key : MediaKey) (e : Engine S)
      → t.has_grab ≡ false
      → Level e (close_orphan ctx ev t key e)
  unfolding close_orphan forget_trace close_orphan_root
  close_orphan-Level ctx ev t key e none_open = ground (
    arith,
    finish_timing-Level key t available Schema.upgrade_manual_search ev
        (forget_trace key t available ev (close_orphan_root ctx ev t e)) none_open,
  )

  pub finish_import-Level :
      (ev : Event) (t : TraceState) (key : MediaKey) (e : Engine S)
      → Level e (finish_import ev t key e)
  unfolding finish_import
  finish_import-Level ev t key e =
      let ctx = context_of e key in
      let p = close_download ctx ev (t, e) in
      let q = close_grab ctx ev (p.0, emit_import ctx ev p.0 p.1) in
      let after = record q.0 { updated_at = ev.occurred_at } in
      let timed = time_import key ev (State.put after q.1) in
      close_orphan-Level ctx ev after key timed
        (ground (arith, close_grab-state ctx ev p.0 (emit_import ctx ev p.0 p.1)))
      ∙ time_import-Level key ev (State.put after q.1)
      ∙ ap grab_falls (import-metrics ctx ev t e)

  time_out-untimed :
      (now : Time) (k : MediaKey) (t : TraceState) (e : Engine S)
      → let e' = time_out now k t e in (e'.timing ≡ e.timing) × (e'.metrics ≡ e.metrics)
  unfolding time_out time_out_children time_out_root
  time_out-untimed now k t e = ground arith

  sweep_keys-untimed :
      (now : Time) (ks : List MediaKey) (e : Engine S)
      → let e' = sweep_keys now ks e in (e'.timing ≡ e.timing) × (e'.metrics ≡ e.metrics)
  unfolding sweep_keys
  sweep_keys-untimed now [] e = (refl, refl)
  sweep_keys-untimed now (k ∷ ks) e =
      let later = sweep_keys-untimed now ks (sweep_key now k e) in
      let first = sweep_key-untimed k in (later.0 ∙ first.0, later.1 ∙ first.1)
    where
      sweep_key-untimed :
          (k : MediaKey)
          → let e' = sweep_key now k e in (e'.timing ≡ e.timing) × (e'.metrics ≡ e.metrics)
      sweep_key-untimed k =
          unfold sweep_key in
          elim (Option-cases (S.get e.store k)) [
            | inl absent ↦ (rw (absent, sweep_key), rw (absent, sweep_key))
            | inr (t, there) ↦ rw (there, sweep_key) (time_out-untimed now k t e)
          ]

  -- A sweep leaves every timing in place, also that of a trace that it drops, and tells the metric
  -- sink nothing: the gauge of open requests keeps counting the traces that timed out.
  pub sweep-untimed :
      (now : Time) (ttl : ℕ) (e : Engine S)
      → let e' = sweep now ttl e in (e'.timing ≡ e.timing) × (e'.metrics ≡ e.metrics)
  unfolding sweep
  sweep-untimed now ttl e = sweep_keys-untimed now (S.stale e.store ttl now) e
