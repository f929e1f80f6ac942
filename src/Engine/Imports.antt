-- ===== src/Engine/Imports.antt =====
-- internal/correlate/engine.go: `onImported` and `onManualNeeded`.
use tracearr.Prelude.{true, ◌||◌, List, [], ◌++◌, none, some, if◌then◌else◌, ltb}
use tracearr.Prelude.Clock.{is_zero, sub_time}
use tracearr.Prelude.Map
use tracearr.Event.{MediaKey, key_eq, Event, available, is_radarr, is_sonarr}
use tracearr.Store.{Store, TraceState, SpanId}
use tracearr.Spans.Schema
use tracearr.Spans.Schema.{Attr}
use tracearr.Engine.Calls.{Context, close_span, synthetic_span, add_span_event, observe_import}
use tracearr.Engine.State.{Engine, emit, measure, put, context_of, resolve_trace}
use tracearr.Engine.Attributes.{text_attr, positive_attr, resumed_root_attrs}
use tracearr.Engine.Requests.{close_download, close_grab, forget_trace, finish_timing}

unfoldable pub import_attrs : Event → List Attr
unfolding text_attr positive_attr
import_attrs ev =
    text_attr Schema.media_import_path ev.import_path
    ++ (positive_attr Schema.media_file_size_bytes ev.file_size_bytes
        ++ (text_attr Schema.media_codec ev.codec
            ++ text_attr Schema.media_resolution ev.resolution))

-- The span of an open grab, or zero, which stands for the root.
unfoldable pub grab_target : TraceState → SpanId
grab_target state = if state.has_grab then state.grab_span_id else 0

module _ {S : Store} where
  -- The span starts when the record was last updated, or else has no length.
  unfoldable pub emit_import : Context → Event → TraceState → Engine S → Engine S
  unfolding emit
  emit_import root_ctx ev state e =
      let span_name =
        if is_radarr ev.source then Schema.span_radarr_import else Schema.span_sonarr_import in
      let start =
        if ltb state.updated_at ev.occurred_at then state.updated_at else ev.occurred_at in
      emit (synthetic_span root_ctx span_name "INTERNAL" start ev.occurred_at (import_attrs ev)) e

  unfoldable pub time_import : MediaKey → Event → Engine S → Engine S
  unfolding measure
  time_import key ev e = elim (Map.get key e.timing) [
    | none ↦ e
    | some t ↦
        let anchor = if is_zero t.download_ended_at then t.grabbed_at else t.download_ended_at in
        let app = if is_radarr ev.source then "radarr" else "sonarr" in
        if is_zero anchor
        then e
        else measure (observe_import app (sub_time ev.occurred_at anchor)) e
  ]

  -- The root of a trace that no request opened.
  unfoldable pub close_orphan_root : Context → Event → TraceState → Engine S → Engine S
  unfolding emit
  close_orphan_root root_ctx ev state e =
      if state.resumed
      then emit
          (synthetic_span Context.todo Schema.span_media_request "SERVER" state.opened_at
            ev.occurred_at (resumed_root_attrs state))
          e
      else emit (close_span root_ctx 0 ev.occurred_at true "" []) e

  unfoldable pub close_orphan : Context → Event → TraceState → MediaKey → Engine S → Engine S
  close_orphan root_ctx ev state key e =
      if is_sonarr state.source || is_radarr state.source
      then finish_timing key state available Schema.upgrade_manual_search ev
          (forget_trace key state available ev (close_orphan_root root_ctx ev state e))
      else e

  unfoldable pub finish_import : Event → TraceState → MediaKey → Engine S → Engine S
  unfolding put
  finish_import ev state key e =
      let root_ctx = context_of e key in
      let (state₁, e₁) = close_download root_ctx ev (state, e) in
      let (state₂, e₂) = close_grab root_ctx ev (state₁, emit_import root_ctx ev state₁ e₁) in
      let state₃ = record state₂ { updated_at = ev.occurred_at } in
      close_orphan root_ctx ev state₃ key (time_import key ev (put state₃ e₂))

  unfoldable pub on_imported : Event → Engine S → Engine S
  on_imported ev e = elim (resolve_trace e ev.key) [
    | none ↦ e
    | some (state, key) ↦ finish_import ev state key e
  ]

  unfoldable pub note_manual : Event → TraceState → MediaKey → Engine S → Engine S
  unfolding emit put
  note_manual ev state key e =
      let noted =
        emit
          (add_span_event (context_of e key) (grab_target state) "manual_interaction_required"
            ev.occurred_at [])
          e in
      put (record state { last_error = Schema.err_manual_interaction; updated_at = ev.occurred_at })
        noted

  unfoldable pub on_manual_needed : Event → Engine S → Engine S
  on_manual_needed ev e = elim (resolve_trace e ev.key) [
    | none ↦ e
    | some (state, key) ↦ note_manual ev state key e
  ]
