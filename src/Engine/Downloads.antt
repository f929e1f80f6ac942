-- ===== src/Engine/Downloads.antt =====
-- internal/correlate/engine.go: `onDownloadStart`, `handleDownloadStart` and `onDownloadDone`.
use tracearr.Prelude.{true, false, ◌∷◌, none, some, ◌==◌, string_eq, if◌then◌else◌}
use tracearr.Prelude.Int.{pos, negsuc}
use tracearr.Prelude.Clock.{is_zero, is_expired, sub_time}
use tracearr.Prelude.Map
use tracearr.Event.{MediaKey, key_eq, Event}
use tracearr.Store.{Store, TraceState}
use tracearr.Spans.Schema
use tracearr.Spans.Schema.{text}
use tracearr.Engine.Calls.{
  Context, Builder, open_child, close_span, synthetic_span, Gauge, observe_download,
  adjust_in_flight,
}
use tracearr.Engine.State.{Engine, emit, measure, put, context_of}
use tracearr.Engine.Attributes.{positive_attr}

module _ {S : Store} where
  -- With a timing the start is noted and the gauge rises.
  unfoldable pub time_download_start : MediaKey → Event → Engine S → Engine S
  unfolding measure
  time_download_start key ev e = elim (Map.get key e.timing) [
    | none ↦ e
    | some t ↦ measure (adjust_in_flight Gauge.download (pos 1)) (record e {
      timing = Map.insert key (record t { download_started_at = ev.occurred_at }) e.timing;
    })
  ]

  -- The download's span is opened, and noted in the record.
  unfoldable pub start_download :
      Builder → Context → TraceState → Event → Engine S → TraceState × Engine S
  unfolding emit
  start_download B root_ctx state ev e =
      let attrs =
        (Schema.media_download_client, text ev.release.download_client)
        ∷ (Schema.media_download_client_id, text ev.release.download_id)
        ∷ positive_attr Schema.media_size_bytes ev.release.size_bytes in
      let opened =
        emit (open_child root_ctx Schema.span_download_transfer "CLIENT" ev.occurred_at attrs) e in
      (
        record state {
          download_span_id = B.child opened.calls;
          has_download = true;
          download_started_at = ev.occurred_at;
          updated_at = ev.occurred_at;
        },
        opened,
      )

  unfoldable pub open_download :
      Builder → Context → TraceState → MediaKey → Event → Engine S → Engine S
  unfolding put
  open_download B root_ctx state key ev e =
      let (state', opened) = start_download B root_ctx state ev e in
      time_download_start key ev (put state' opened)

  unfoldable pub handle_download_start :
      Builder → Context → TraceState → MediaKey → Event → Engine S → Engine S
  handle_download_start B root_ctx state key ev e =
      if state.has_download then e else open_download B root_ctx state key ev e

  -- The event waits for its grab; those that waited too long are dropped.
  unfoldable pub park : Event → Engine S → Engine S
  park ev e = record e {
    pending_dl =
        Map.insert ev.release.download_id (record { event = ev; added_at = ev.occurred_at })
          (Map.drop_if (λ p. is_expired e.pending_dl_ttl ev.occurred_at p.added_at) e.pending_dl);
  }

  unfoldable pub on_download_start : Builder → Event → Engine S → Engine S
  on_download_start B ev e = elim (S.get_by_download_id e.store ev.release.download_id) [
    | none ↦ park ev e
    | some state ↦ handle_download_start B (context_of e state.key) state state.key ev e
  ]

  unfoldable pub time_download_end : MediaKey → Event → Engine S → Engine S
  unfolding measure
  time_download_end key ev e = elim (Map.get key e.timing) [
    | none ↦ e
    | some t ↦
        let e' = record e {
          timing = Map.insert key (record t { download_ended_at = ev.occurred_at }) e.timing;
        } in
        if is_zero t.download_started_at
        then e'
        else measure (adjust_in_flight Gauge.download (negsuc 0)) (
            measure
              (observe_download t.download_client t.protocol
                (sub_time ev.occurred_at t.download_started_at))
              e')
  ]

  -- An open download ends; one whose start was missed shows as a span of no length.
  unfoldable pub close_transfer : Context → TraceState → Event → Engine S → Engine S
  unfolding emit
  close_transfer root_ctx state ev e =
      let final_attrs = positive_attr Schema.download_bytes ev.release.size_bytes in
      if state.has_download
      then emit
          (close_span root_ctx state.download_span_id ev.occurred_at (ev.error_reason == "")
            ev.error_reason final_attrs)
          e
      else emit
          (synthetic_span root_ctx Schema.span_download_transfer "CLIENT" ev.occurred_at
            ev.occurred_at final_attrs)
          e

  unfoldable pub finish_download : TraceState → Event → Engine S → Engine S
  unfolding put
  finish_download state ev e = time_download_end state.key ev (
      put (record state { has_download = false; updated_at = ev.occurred_at })
        (close_transfer (context_of e state.key) state ev e))

  unfoldable pub on_download_done : Event → Engine S → Engine S
  on_download_done ev e = elim (S.get_by_download_id e.store ev.release.download_id) [
    | none ↦ e
    | some state ↦ finish_download state ev e
  ]
