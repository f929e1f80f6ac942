-- ===== src/Engine/NoLeak/Imports.antt =====
-- `onImported`, `onManualNeeded` and `NoteQueueIssue` leave no child span behind.
use tracearr.Prelude.{◌≡◌, true, String, none, some, arith, Option-cases, inl, inr, if◌then◌else◌}
use tracearr.Prelude.Clock.{Time}
use tracearr.Event.{MediaKey, Event, available}
use tracearr.Store.{Store, KeyLaws, TraceState, SpanId}
use tracearr.Spans.Schema
use tracearr.Engine.Calls.{Context, Builder}
use tracearr.Engine.State.{Engine, context_of, put, resolve_trace}
use tracearr.Engine.Requests.{close_download, close_grab, forget_trace}
use tracearr.Engine.Imports.{
  emit_import, time_import, close_orphan_root, close_orphan, finish_import, on_imported,
  note_manual, on_manual_needed,
}
use tracearr.Engine.Queue.{note_stall, note_queue_issue}
use tracearr.Engine.OpenSpans.{is_open, is_loose, NoLeak, NoLeak-replace}
use tracearr.Engine.Records.Resolve.{resolve_trace-get, resolve_trace-keyed, resolve_trace_own}
use tracearr.Engine.Records.Requests.{close_download-state, close_grab-state}
use tracearr.Engine.Records.Imports.{
  is_orphan, imported_state, get-finish_import, get-note_manual, get-note_stall,
}
use tracearr.Engine.NoLeak.Requests.{close_download-loose, close_grab-loose, calls-finish_timing}

module _ {S : Store} where
  calls-time_import :
      (key : MediaKey) (ev : Event) (e : Engine S) → (time_import key ev e).calls ≡ e.calls
  unfolding time_import
  calls-time_import key ev e = ground arith

module _ (B : Builder) {S : Store} where
  emit_import-loose :
      (ctx : Context) (ev : Event) (t : TraceState) (e : Engine S) (id : SpanId)
      → is_loose B (emit_import ctx ev t e).calls (some t) id ≡ true
      → is_loose B e.calls (some t) id ≡ true
  unfolding emit_import is_loose is_open
  emit_import-loose ctx ev t e id h = h

  close_orphan-open :
      (ctx : Context) (ev : Event) (t : TraceState) (key : MediaKey) (e : Engine S) (id : SpanId)
      → is_open B (close_orphan ctx ev t key e).calls id ≡ true
      → is_open B e.calls id ≡ true
  unfolding close_orphan close_orphan_root forget_trace is_open
  close_orphan-open ctx ev t key e id = ground (
    arith,
    calls-finish_timing key t available Schema.upgrade_manual_search ev
        (forget_trace key t available ev (close_orphan_root ctx ev t e)),
  )

  finish_import-loose :
      (ev : Event) (t : TraceState) (key : MediaKey) (e : Engine S) (id : SpanId)
      → is_loose B
          (finish_import ev t key e).calls
          (if is_orphan t then none else some (imported_state ev t))
          id
        ≡ true
      → is_loose B e.calls (some t) id ≡ true
  unfolding finish_import is_loose
  finish_import-loose ev t key e id h =
      let ctx = context_of e key in
      let p = close_download ctx ev (t, e) in
      let imported = emit_import ctx ev p.0 p.1 in
      let q = close_grab ctx ev (p.0, imported) in
      let t₃ = record q.0 { updated_at = ev.occurred_at } in
      let timed = time_import key ev (put t₃ q.1) in
      close_download-loose B ctx ev t e id (
        emit_import-loose ctx ev p.0 p.1 id (
          close_grab-loose B ctx ev p.0 imported id (
            ground (
              arith,
              close_orphan-open ctx ev t₃ key timed id,
              calls-time_import key ev (put t₃ q.1),
              close_grab-state ctx ev p.0 imported,
              close_download-state ctx ev t e,
            ))))

  note_manual-loose :
      (ev : Event) (t : TraceState) (key : MediaKey) (e : Engine S) (id : SpanId)
      → is_loose B
          (note_manual ev t key e).calls
          (some
            (record t { last_error = Schema.err_manual_interaction; updated_at = ev.occurred_at }))
          id
        ≡ true
      → is_loose B e.calls (some t) id ≡ true
  unfolding note_manual is_loose is_open
  note_manual-loose ev t key e id h = h

module _ (B : Builder) {S : Store} (L : KeyLaws S) where
  open L use {Wf, get_by_download_id_found}

  pub on_imported-NoLeak :
      (ev : Event) (e : Engine S) → Wf e.store → NoLeak B e → NoLeak B (on_imported ev e)
  unfolding on_imported
  on_imported-NoLeak ev e wf h = elim (Option-cases (resolve_trace e ev.key)) [
    | inl missing ↦ rw (missing, on_imported) h
    | inr ((t, key), found) ↦
        rw (found, on_imported)
          (NoLeak-replace B e (finish_import ev t key e) key (some t)
            (if is_orphan t then none else some (imported_state ev t))
            (resolve_trace-get e ev.key found)
            (λ j. get-finish_import L ev t key e j (resolve_trace-keyed L e ev.key wf found))
            (finish_import-loose B ev t key e) h)
  ]

  pub on_manual_needed-NoLeak :
      (ev : Event) (e : Engine S) → Wf e.store → NoLeak B e → NoLeak B (on_manual_needed ev e)
  unfolding on_manual_needed
  on_manual_needed-NoLeak ev e wf h = elim (Option-cases (resolve_trace e ev.key)) [
    | inl missing ↦ rw (missing, on_manual_needed) h
    | inr ((t, key), found) ↦
        rw (found, on_manual_needed)
          (NoLeak-replace B e (note_manual ev t key e) t.key (some t) _
            (resolve_trace_own L e ev.key wf found) (get-note_manual L ev t key e)
            (note_manual-loose B ev t key e) h)
  ]

  pub note_queue_issue-NoLeak :
      (id status msg : String) (when : Time) (e : Engine S)
      → Wf e.store
      → NoLeak B e
      → NoLeak B (note_queue_issue id status msg when e)
  unfolding note_queue_issue note_stall is_loose is_open
  note_queue_issue-NoLeak id status msg when e wf h =
      elim (Option-cases (S.get_by_download_id e.store id)) [
        | inl missing ↦ rw (missing, note_queue_issue) h
        | inr (t, found) ↦
            rw (found, note_queue_issue)
              (NoLeak-replace B e (note_stall status msg when t e) t.key (some t) _
                (get_by_download_id_found e.store id t wf found)
                (get-note_stall L status msg when t e) (λ _ loose. loose) h)
      ]
