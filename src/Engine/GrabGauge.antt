-- ===== src/Engine/GrabGauge.antt =====
-- internal/correlate/engine.go: the gauge of open grabs over a whole run. `onRequestClosed` and
-- `onImported` test `HasGrab` after they cleared it, so that the branch that lowers it is dead.
use tracearr.Prelude.{
  ℕ, suc, ◌≡◌, refl, String, List, [], ◌∷◌, Option, none, some, Option-cases, Bool-cases, inl, inr,
  ◌∙◌, ap,
}
use tracearr.Prelude.Int.{ℤ}
use tracearr.Prelude.Clock.{Time}
use tracearr.Prelude.Map
use tracearr.Engine.Gauges.Rises.{grab_rises, grab-rises}
use tracearr.Event.{
  MediaKey, key_eq, Event, Phase, request_opened, request_approved, request_closed, grabbed,
  download_start, download_done, imported, manual_needed, unknown,
}
use tracearr.Store.{Store, TraceState}
use tracearr.Engine.Calls.{Context, Builder}
use tracearr.Engine.State.{LifecycleTiming, Engine, context_of, resolve_trace}
use tracearr.Engine.Requests.{
  open_request, on_request_opened, approve, on_request_approved, close_request, on_request_closed,
}
use tracearr.Engine.Downloads.{
  handle_download_start, park, on_download_start, finish_download, on_download_done,
}
use tracearr.Engine.Grabs.{open_orphan_root, grab, grab_orphan, on_grabbed}
use tracearr.Engine.Imports.{finish_import, on_imported, note_manual, on_manual_needed}
use tracearr.Engine.Titles.{lookup_by_title, emit_prowlarr_search}
use tracearr.Prelude.Text.{runes}
use tracearr.Engine.Queue.{note_stall, note_queue_issue}
use tracearr.Engine.Process.{dispatch, process}
use tracearr.Engine.Runs.{Action, deliver, search, stall, tidy, act, run}
use tracearr.Engine.Gauges.{
  grab_falls, Level, open_request-Level, approve-Level, close_request-Level,
  handle_download_start-Level, finish_download-Level, grab-Level, finish_import-Level,
  sweep-untimed,
}

module _ {S : Store} where
  -- A step that handles a record that was found, or else does something that leaves the gauge.
  found-Level :
      {A : Type 0} (found : Option A) (e : Engine S) (missing : Engine S) (step : A → Engine S)
      → Level e missing
      → ((a : A) → Level e (step a))
      → Level e (elim found [ none ↦ missing | some a ↦ step a ])
  found-Level none e missing step h g = h
  found-Level (some a) e missing step h g = g a

  on_request_opened-Level :
      (B : Builder) (ctx : Context) (ev : Event) (e : Engine S)
      → Level e (on_request_opened B ctx ev e)
  unfolding on_request_opened
  on_request_opened-Level B ctx ev e =
      found-Level (resolve_trace e ev.key) e (open_request B ctx ev e)
        (λ (p : TraceState × MediaKey). e) (open_request-Level B ctx ev e) (λ p. refl)

  on_request_approved-Level : (ev : Event) (e : Engine S) → Level e (on_request_approved ev e)
  unfolding on_request_approved
  on_request_approved-Level ev e =
      found-Level (resolve_trace e ev.key) e e (λ (p : TraceState × MediaKey). approve ev p.0 p.1 e)
        refl (λ p. approve-Level ev p.0 p.1 e)

  on_request_closed-Level : (ev : Event) (e : Engine S) → Level e (on_request_closed ev e)
  unfolding on_request_closed
  on_request_closed-Level ev e =
      found-Level (resolve_trace e ev.key) e e
        (λ (p : TraceState × MediaKey). close_request ev p.0 p.1 e) refl
        (λ p. close_request-Level ev p.0 p.1 e)

  open_orphan_root-Level :
      (B : Builder) (ctx : Context) (ev : Event) (e : Engine S)
      → Level e (open_orphan_root B ctx ev e).1
  unfolding open_orphan_root
  open_orphan_root-Level B ctx ev e = refl

  on_grabbed-Level :
      (B : Builder) (ctx : Context) (ev : Event) (e : Engine S) → Level e (on_grabbed B ctx ev e)
  unfolding on_grabbed grab_orphan
  on_grabbed-Level B ctx ev e =
      let opened = open_orphan_root B ctx ev e in
      found-Level (resolve_trace e ev.key) e (grab_orphan B ctx ev e)
        (λ (p : TraceState × MediaKey). grab B ev p.0 p.1 e)
        (grab-Level B ev opened.0 ev.key opened.1 ∙ open_orphan_root-Level B ctx ev e)
        (λ p. grab-Level B ev p.0 p.1 e)

  on_download_start-Level :
      (B : Builder) (ev : Event) (e : Engine S) → Level e (on_download_start B ev e)
  unfolding on_download_start park
  on_download_start-Level B ev e =
      found-Level (S.get_by_download_id e.store ev.release.download_id) e (park ev e)
        (λ (t : TraceState). handle_download_start B (context_of e t.key) t t.key ev e) refl
        (λ t. handle_download_start-Level B (context_of e t.key) t t.key ev e)

  on_download_done-Level : (ev : Event) (e : Engine S) → Level e (on_download_done ev e)
  unfolding on_download_done
  on_download_done-Level ev e =
      found-Level (S.get_by_download_id e.store ev.release.download_id) e e
        (λ (t : TraceState). finish_download t ev e) refl (λ t. finish_download-Level t ev e)

  on_imported-Level : (ev : Event) (e : Engine S) → Level e (on_imported ev e)
  unfolding on_imported
  on_imported-Level ev e =
      found-Level (resolve_trace e ev.key) e e
        (λ (p : TraceState × MediaKey). finish_import ev p.0 p.1 e) refl
        (λ p. finish_import-Level ev p.0 p.1 e)

  note_manual-Level :
      (ev : Event) (t : TraceState) (key : MediaKey) (e : Engine S)
      → Level e (note_manual ev t key e)
  unfolding note_manual
  note_manual-Level ev t key e = refl

  on_manual_needed-Level : (ev : Event) (e : Engine S) → Level e (on_manual_needed ev e)
  unfolding on_manual_needed
  on_manual_needed-Level ev e =
      found-Level (resolve_trace e ev.key) e e
        (λ (p : TraceState × MediaKey). note_manual ev p.0 p.1 e) refl
        (λ p. note_manual-Level ev p.0 p.1 e)

  note_stall-Level :
      (status msg : String) (when : Time) (t : TraceState) (e : Engine S)
      → Level e (note_stall status msg when t e)
  unfolding note_stall
  note_stall-Level status msg when t e = refl

  note_queue_issue-Level :
      (id status msg : String) (when : Time) (e : Engine S)
      → Level e (note_queue_issue id status msg when e)
  unfolding note_queue_issue
  note_queue_issue-Level id status msg when e =
      found-Level (S.get_by_download_id e.store id) e e
        (λ (t : TraceState). note_stall status msg when t e) refl
        (λ t. note_stall-Level status msg when t e)

  emit_prowlarr_search-Level :
      (to_lower : ℕ → ℕ) (query indexer : String) (when : Time) (ms : ℤ) (e : Engine S)
      → Level e (emit_prowlarr_search to_lower query indexer when ms e)
  unfolding emit_prowlarr_search
  emit_prowlarr_search-Level to_lower query indexer when ms e =
      elim (Option-cases (lookup_by_title to_lower e (runes query))) [
        | inl missing ↦ rw (missing, emit_prowlarr_search)
        | inr (ctx, found) ↦ rw (found, emit_prowlarr_search)
      ]

  dispatch-Level :
      (B : Builder) (p : Phase) (ctx : Context) (ev : Event) (e : Engine S)
      → Level e (dispatch B p ctx ev e)
  unfolding dispatch
  dispatch-Level B request_opened ctx ev e = on_request_opened-Level B ctx ev e
  dispatch-Level B request_approved ctx ev e = on_request_approved-Level ev e
  dispatch-Level B request_closed ctx ev e = on_request_closed-Level ev e
  dispatch-Level B grabbed ctx ev e = on_grabbed-Level B ctx ev e
  dispatch-Level B download_start ctx ev e = on_download_start-Level B ev e
  dispatch-Level B download_done ctx ev e = on_download_done-Level ev e
  dispatch-Level B imported ctx ev e = on_imported-Level ev e
  dispatch-Level B manual_needed ctx ev e = on_manual_needed-Level ev e
  dispatch-Level B (unknown _) ctx ev e = refl

  process-Level :
      (B : Builder) (ctx : Context) (ev : Event) (e : Engine S) → Level e (process B ctx ev e)
  unfolding process
  process-Level B ctx ev e =
      let (fresh, s) = S.seen_event e.store ev.source ev.event_id ev.occurred_at in
      elim (Bool-cases fresh) [
        | inl first ↦ rw first (dispatch-Level B ev.phase ctx ev (record e { store = s }))
        | inr duplicate ↦ rw duplicate
      ]

  on_grabbed-rises :
      (B : Builder) (ctx : Context) (ev : Event) (t : TraceState) (key : MediaKey) (e : Engine S)
      (l : LifecycleTiming)
      → resolve_trace e ev.key ≡ some (t, key)
      → Map.get key e.timing ≡ some l
      → grab_rises (on_grabbed B ctx ev e).metrics ≡ suc (grab_rises e.metrics)
  unfolding on_grabbed
  on_grabbed-rises B ctx ev t key e l found timed =
      rw (found, on_grabbed) (grab-rises B ev t key e l timed)

  act-Level :
      (to_lower : ℕ → ℕ) (B : Builder) (a : Action) (e : Engine S) → Level e (act to_lower B a e)
  unfolding act
  act-Level to_lower B (deliver ctx ev) e = process-Level B ctx ev e
  act-Level to_lower B (search query indexer when ms) e =
      emit_prowlarr_search-Level to_lower query indexer when ms e
  act-Level to_lower B (stall id status msg when) e = note_queue_issue-Level id status msg when e
  act-Level to_lower B (tidy now ttl) e = ap grab_falls (sweep-untimed now ttl e).1

  run-falls :
      (to_lower : ℕ → ℕ) (B : Builder) (actions : List Action) (e : Engine S)
      → Level e (run to_lower B actions e)
  unfolding run
  run-falls to_lower B [] e = refl
  run-falls to_lower B (a ∷ rest) e =
      run-falls to_lower B rest (act to_lower B a e) ∙ act-Level to_lower B a e

  -- The gauge of open grabs is never lowered: no event, poll or sweep, in whatever order they come,
  -- takes anything off it; and in the state after them, as in any, a grab of a trace that is found with a
  -- timing adds one to it.
  pub run-Level :
      (to_lower : ℕ → ℕ) (B : Builder) (actions : List Action) (e : Engine S)
      → let e' = run to_lower B actions e in
        (grab_falls e'.metrics ≡ grab_falls e.metrics)
        × ((ctx : Context) (ev : Event) (t : TraceState) (key : MediaKey) (l : LifecycleTiming)
            → resolve_trace e' ev.key ≡ some (t, key)
            → Map.get key e'.timing ≡ some l
            → grab_rises (on_grabbed B ctx ev e').metrics ≡ suc (grab_rises e'.metrics))
  run-Level to_lower B actions e = (
    run-falls to_lower B actions e,
    λ ctx ev t key l found timed.
        on_grabbed-rises B ctx ev t key (run to_lower B actions e) l found timed,
  )
