-- ===== src/Engine/Writes.antt =====
-- The store as the handlers change it: only by `Put`, `Delete`, `RememberClosed` and `RecallClosed`.
pub mod Changes
use tracearr.Prelude.{
  ◌≡◌, refl, false, String, Option, none, some, Option-cases, Bool-cases, inl, inr, subst, sym, ◌∙◌,
  ◌==◌, string_eq,
}
use tracearr.Prelude.Int.{ℤ}
use tracearr.Prelude.Clock.{Time}
use tracearr.Prelude.Map
use tracearr.Event.{
  MediaKey, key_eq, Event, Phase, Outcome, Source, available, request_opened, request_approved,
  request_closed, grabbed, download_start, download_done, imported, manual_needed, unknown,
}
use tracearr.Store.{Store, SeenLaws, TraceState, TraceId, ClosedTrace}
use tracearr.Spans.Schema
use tracearr.Engine.Calls.{Context, Builder}
use tracearr.Engine.State.{LifecycleTiming, Engine, context_of, resolve_trace}
use tracearr.Engine.State
use tracearr.Engine.Requests.{
  start_request, request_reason, install_request, open_request, on_request_opened, approve,
  on_request_approved, close_download, close_grab, close_request_root, forget_trace, finish_timing,
  close_request, on_request_closed,
}
use tracearr.Engine.Downloads.{
  start_download, open_download, handle_download_start, park, on_download_start, close_transfer,
  finish_download, on_download_done,
}
use tracearr.Engine.Grabs.{
  open_orphan_root, emit_search, supersede_grab, open_grab, time_grab, replay_download, grab,
  grab_orphan, on_grabbed,
}
use tracearr.Engine.Imports.{
  emit_import, time_import, close_orphan_root, close_orphan, finish_import, on_imported,
  note_manual, on_manual_needed,
}
use tracearr.Engine.Process.{dispatch}
use tracearr.Engine.Records.Requests.{
  update_timing-SameTraces, close_download-SameTraces, close_grab-SameTraces,
  close_request_root-SameTraces, finish_timing-SameTraces,
}
use tracearr.Engine.Records.Downloads.{
  time_download_start-SameTraces, start_download-SameTraces, time_download_end-SameTraces,
  close_transfer-SameTraces,
}
use tracearr.Engine.Records.Grabs.{
  emit_search-SameTraces, supersede_grab-SameTraces, time_grab-SameTraces,
}
use tracearr.Engine.Records.Imports.{
  is_orphan, emit_import-SameTraces, time_import-SameTraces, close_orphan_root-SameTraces,
}
use tracearr.Engine.Writes.Changes.{
  Writes, here, put, delete, remember, recall, open_request-Changes, approve-Changes,
  close_request-Changes, handle_download_start-Changes, finish_download-Changes, grab-Changes,
  finish_import-Changes,
}

module _ {S : Store} (B : Builder) where
  pub dispatch-Writes :
      (p : Phase) (ctx : Context) (ev : Event) (e : Engine S)
      → Writes S e.store (dispatch B p ctx ev e).store
  unfolding dispatch on_request_opened on_request_approved on_request_closed on_grabbed grab_orphan
      on_download_start park on_download_done on_imported on_manual_needed note_manual
      open_orphan_root
  dispatch-Writes request_opened ctx ev e = elim (Option-cases (resolve_trace e ev.key)) [
    | inl missing ↦ rw (missing, on_request_opened) (open_request-Changes B ctx ev e)
    | inr (_, found) ↦ rw (found, on_request_opened) here
  ]
  dispatch-Writes request_approved ctx ev e = elim (Option-cases (resolve_trace e ev.key)) [
    | inl missing ↦ rw (missing, on_request_approved) here
    | inr ((t, key), found) ↦ rw (found, on_request_approved) (approve-Changes ev t key e)
  ]
  dispatch-Writes request_closed ctx ev e = elim (Option-cases (resolve_trace e ev.key)) [
    | inl missing ↦ rw (missing, on_request_closed) here
    | inr ((t, key), found) ↦ rw (found, on_request_closed) (close_request-Changes ev t key e)
  ]
  dispatch-Writes grabbed ctx ev e = elim (Option-cases (resolve_trace e ev.key)) [
    | inl missing ↦
        let (t, opened) = open_orphan_root B ctx ev e in
        rw (missing, on_grabbed)
          (grab-Changes B ev t ev.key opened (put (recall here ev.key ev.occurred_at) t))
    | inr ((t, key), found) ↦ rw (found, on_grabbed) (grab-Changes B ev t key e here)
  ]
  dispatch-Writes download_start ctx ev e =
      elim (Option-cases (S.get_by_download_id e.store ev.release.download_id)) [
        | inl missing ↦ rw (missing, on_download_start) here
        | inr (t, found) ↦
            rw (found, on_download_start)
              (handle_download_start-Changes B (context_of e t.key) t t.key ev e here)
      ]
  dispatch-Writes download_done ctx ev e =
      elim (Option-cases (S.get_by_download_id e.store ev.release.download_id)) [
        | inl missing ↦ rw (missing, on_download_done) here
        | inr (t, found) ↦ rw (found, on_download_done) (finish_download-Changes t ev e)
      ]
  dispatch-Writes imported ctx ev e = elim (Option-cases (resolve_trace e ev.key)) [
    | inl missing ↦ rw (missing, on_imported) here
    | inr ((t, key), found) ↦ rw (found, on_imported) (finish_import-Changes ev t key e)
  ]
  dispatch-Writes manual_needed ctx ev e = elim (Option-cases (resolve_trace e ev.key)) [
    | inl missing ↦ rw (missing, on_manual_needed) here
    | inr ((t, key), found) ↦ rw (found, on_manual_needed) (put here _)
  ]
  dispatch-Writes (unknown _) ctx ev e = here

module _ {S : Store} (L : SeenLaws S) where
  open L use {seen, seen-put, seen-delete, seen-remember_closed, seen-recall_closed}

  -- So what deduplication remembers stays as it was.
  pub seen-Writes :
      {s u : S.State} (src : Source) (id : String) (now : Time)
      → Writes S s u
      → seen u src id now ≡ seen s src id now
  seen-Writes src id now here = refl
  seen-Writes src id now (put w t) = seen-put _ t src id now ∙ seen-Writes src id now w
  seen-Writes src id now (delete w k) = seen-delete _ k src id now ∙ seen-Writes src id now w
  seen-Writes src id now (remember w k tid n o when) =
      seen-remember_closed _ k tid n o when src id now ∙ seen-Writes src id now w
  seen-Writes src id now (recall w k at) =
      seen-recall_closed _ k at src id now ∙ seen-Writes src id now w
