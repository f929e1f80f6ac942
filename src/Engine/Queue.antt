-- ===== src/Engine/Queue.antt =====
-- internal/correlate/engine.go: `NoteQueueIssue`, which the queue poller calls.
use Prim.Native.String.{◌++◌ as str_append}
use tracearr.Prelude.{String, ◌∷◌, none, some}
use tracearr.Prelude.Clock.{Time}
use tracearr.Store.{Store, TraceState}
use tracearr.Spans.Schema.{text}
use tracearr.Engine.Calls.{add_span_event}
use tracearr.Engine.State.{Engine, emit, put, context_of}
use tracearr.Engine.Attributes.{text_attr}
use tracearr.Engine.Imports.{grab_target}

module _ {S : Store} where
  unfoldable pub note_stall : String → String → Time → TraceState → Engine S → Engine S
  unfolding emit put
  note_stall status msg when state e =
      let attrs = ("queue.status", text status) ∷ text_attr "queue.message" msg in
      put (record state { last_error = str_append "arr.queue_" status; updated_at = when })
        (emit
          (add_span_event (context_of e state.key) (grab_target state) "queue.stalled" when attrs)
          e)

  unfoldable pub note_queue_issue : String → String → String → Time → Engine S → Engine S
  note_queue_issue download_id status msg when e = elim (S.get_by_download_id e.store download_id) [
    | none ↦ e
    | some state ↦ note_stall status msg when state e
  ]
