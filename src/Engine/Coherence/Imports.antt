-- ===== src/Engine/Coherence/Imports.antt =====
-- `onImported`, `onManualNeeded` and `NoteQueueIssue` keep the traces coherent.
use tracearr.Prelude.{
  ◌≡◌, refl, String, none, some, arith, Option-cases, Bool-cases, inl, inr, subst, sym, ◌∙◌,
}
use tracearr.Prelude.Clock.{Time}
use tracearr.Prelude.Map.{get-delete}
use tracearr.Event.{MediaKey, key_eq, Event, available}
use tracearr.Store.{Store, KeyLaws, TraceState}
use tracearr.Spans.Schema
use tracearr.Engine.Calls.{Context}
use tracearr.Engine.State.{Engine, context_of, put, resolve_trace}
use tracearr.Engine.Requests.{close_download, close_grab, forget_trace, finish_timing}
use tracearr.Engine.Imports.{
  emit_import, time_import, close_orphan_root, close_orphan, finish_import, on_imported,
  note_manual, on_manual_needed,
}
use tracearr.Engine.Queue.{note_stall, note_queue_issue}
use tracearr.Engine.Records.Resolve.{resolve_trace_own}
use tracearr.Engine.Records.Requests.{
  close_download-SameTraces, close_grab-SameTraces, finish_timing-SameTraces, close_download-state,
  close_grab-state,
}
use tracearr.Engine.Records.Imports.{
  is_orphan, emit_import-SameTraces, time_import-SameTraces, close_orphan_root-SameTraces,
  get-note_manual, get-note_stall,
}
use tracearr.Engine.Coherence.Defs.{Coherent, Coherent-replace, Coherent-update, Coherent-same}

module _ {S : Store} (L : KeyLaws S) where
  open L use {
    Wf, Wf-put, Wf-delete, Wf-remember_closed, get-put, get-delete as get-store_delete,
    get-remember_closed, get_by_download_id_found,
  }

  -- The trace leaves with its record and its context.
  forget_trace-Coherent :
      (ev : Event) (t : TraceState) (key : MediaKey) (why : String) (e : Engine S)
      → Coherent L e
      → Coherent L (finish_timing key t available why ev (forget_trace key t available ev e))
  unfolding forget_trace
  forget_trace-Coherent ev t key why e h =
      let forgotten = forget_trace key t available ev e in
      let same = finish_timing-SameTraces key t available why ev forgotten in
      Coherent-same L forgotten (finish_timing key t available why ev forgotten) same.0 same.1 (
        Coherent-replace L e forgotten key none none
          (Wf-remember_closed _ key _ _ _ _ (Wf-delete e.store key h.wf))
          (λ j. ground (
            arith,
            get-store_delete e.store key j,
            get-remember_closed (S.delete e.store key) key t.trace_id t.attempt available
                ev.occurred_at j,
          ))
          (λ j. get-delete key j e.ctx_by_key) refl h)

  close_orphan-Coherent :
      (ctx : Context) (ev : Event) (t : TraceState) (key : MediaKey) (e : Engine S)
      → Coherent L e
      → Coherent L (close_orphan ctx ev t key e)
  unfolding close_orphan
  close_orphan-Coherent ctx ev t key e h = elim (Bool-cases (is_orphan t)) [
    | inr request ↦ rw request h
    | inl orphan ↦
        let same = close_orphan_root-SameTraces ctx ev t e in
        rw orphan (
          forget_trace-Coherent ev t key Schema.upgrade_manual_search (close_orphan_root ctx ev t e)
            (Coherent-same L e (close_orphan_root ctx ev t e) same.0 same.1 h))
  ]

  finish_import-Coherent :
      (ev : Event) (t : TraceState) (key : MediaKey) (e : Engine S)
      → S.get e.store t.key ≡ some t
      → Coherent L e
      → Coherent L (finish_import ev t key e)
  unfolding finish_import
  finish_import-Coherent ev t key e there h =
      let ctx = context_of e key in
      let p = close_download ctx ev (t, e) in
      let imported = emit_import ctx ev p.0 p.1 in
      let q = close_grab ctx ev (p.0, imported) in
      let t₃ = record q.0 { updated_at = ev.occurred_at } in
      let same = close_download-SameTraces ctx ev (t, e) in
      let same' = emit_import-SameTraces ctx ev p.0 p.1 in
      let same'' = close_grab-SameTraces ctx ev (p.0, imported) in
      let store : q.1.store ≡ e.store = same''.0 ∙ (same'.0 ∙ same.0) in
      let timed = time_import-SameTraces key ev (put t₃ q.1) in
      close_orphan-Coherent ctx ev t₃ key (time_import key ev (put t₃ q.1)) (
        Coherent-same L (put t₃ q.1) (time_import key ev (put t₃ q.1)) timed.0 timed.1 (
          Coherent-update L e (put t₃ q.1) t.key t t₃
            (unfold put in Wf-put q.1.store t₃ (subst Wf (sym store) h.wf)) there
            (λ j. ground (
              arith,
              get-put q.1.store t₃ j,
              store,
              close_download-state ctx ev t e,
              close_grab-state ctx ev p.0 imported,
            ))
            (unfold put in same''.1 ∙ (same'.1 ∙ same.1)) h))

  pub on_imported-Coherent :
      (ev : Event) (e : Engine S) → Coherent L e → Coherent L (on_imported ev e)
  unfolding on_imported
  on_imported-Coherent ev e h = elim (Option-cases (resolve_trace e ev.key)) [
    | inl missing ↦ rw (missing, on_imported) h
    | inr ((t, key), found) ↦
        rw (found, on_imported)
          (finish_import-Coherent ev t key e (resolve_trace_own L e ev.key h.wf found) h)
  ]

  pub on_manual_needed-Coherent :
      (ev : Event) (e : Engine S) → Coherent L e → Coherent L (on_manual_needed ev e)
  unfolding on_manual_needed note_manual
  on_manual_needed-Coherent ev e h = elim (Option-cases (resolve_trace e ev.key)) [
    | inl missing ↦ rw (missing, on_manual_needed) h
    | inr ((t, key), found) ↦
        rw (found, on_manual_needed)
          (Coherent-update L e (note_manual ev t key e) t.key t _ (Wf-put e.store _ h.wf)
            (resolve_trace_own L e ev.key h.wf found) (get-note_manual L ev t key e) refl h)
  ]

  pub note_queue_issue-Coherent :
      (id status msg : String) (when : Time) (e : Engine S)
      → Coherent L e
      → Coherent L (note_queue_issue id status msg when e)
  unfolding note_queue_issue note_stall
  note_queue_issue-Coherent id status msg when e h =
      elim (Option-cases (S.get_by_download_id e.store id)) [
        | inl missing ↦ rw (missing, note_queue_issue) h
        | inr (t, found) ↦
            rw (found, note_queue_issue)
              (Coherent-update L e (note_stall status msg when t e) t.key t _
                (Wf-put e.store _ h.wf) (get_by_download_id_found e.store id t h.wf found)
                (get-note_stall L status msg when t e) refl h)
      ]
