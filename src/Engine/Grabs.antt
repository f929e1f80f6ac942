-- ===== src/Engine/Grabs.antt =====
-- internal/correlate/engine.go: `onGrabbed` and `openOrphanRoot`.
use tracearr.Prelude.{
  Bool, true, false, not, ◌&&◌, String, List, [], ◌∷◌, ◌++◌, Option, none, some, ◌==◌, string_eq,
  if◌then◌else◌, ltb,
}
use tracearr.Prelude.Int.{pos}
use tracearr.Prelude.Clock.{is_zero, sub_time, milliseconds}
use tracearr.Prelude.Map
use tracearr.Event.{MediaKey, key_eq, Event, Outcome, failed, timeout, source_text, is_radarr}
use tracearr.Store.{Store, TraceState, ClosedTrace}
use tracearr.Spans.Schema
use tracearr.Spans.Schema.{Attr, text, int}
use tracearr.Engine.Calls.{
  Context, Link, Builder, open_root, open_child, close_span, synthetic_span, Gauge, observe_grab,
  adjust_in_flight,
}
use tracearr.Engine.State.{Engine, emit, measure, put, context_of, resolve_trace}
use tracearr.Engine.Attributes.{text_attr, base_attrs, release_attrs, link_to_prior}
use tracearr.Engine.Requests.{next_attempt}
use tracearr.Engine.Downloads.{handle_download_start}

abbrev pub is_failure : Outcome → Bool
is_failure failed = true
is_failure timeout = true
is_failure _ = false

-- Why a grab without a request opens a trace; "" is no reason.
unfoldable pub orphan_reason : Event → Option ClosedTrace → String
orphan_reason ev none = if ev.release.is_upgrade then Schema.upgrade_quality else ""
orphan_reason ev (some prior) =
    if ev.release.is_upgrade
    then Schema.upgrade_quality
    else if is_failure prior.outcome
    then Schema.upgrade_failed_retry
    else Schema.upgrade_manual_search

unfoldable pub orphan_links : Event → Option ClosedTrace → List Link
orphan_links ev none = []
orphan_links ev (some prior) = link_to_prior prior (orphan_reason ev (some prior)) ∷ []

module _ {S : Store} where
  unfoldable pub open_orphan_root : Builder → Context → Event → Engine S → TraceState × Engine S
  unfolding emit put
  open_orphan_root B ctx ev e =
      let (prior, s) = S.recall_closed e.store ev.key ev.occurred_at in
      let attempt = next_attempt prior in
      let attrs =
        base_attrs ev.key ev.title attempt
        ++ ((Schema.media_source, text (source_text ev.source))
            ∷ text_attr Schema.media_upgrade_reason (orphan_reason ev prior)) in
      let opened =
        emit
          (open_root ctx Schema.span_media_request "SERVER" ev.occurred_at attrs
            (orphan_links ev prior))
          (record e { store = s }) in
      let (root_ctx, tid, sid) = B.root opened.calls in
      let state : TraceState = record {
        key = ev.key;
        trace_id = tid;
        root_span_id = sid;
        attempt = attempt;
        source = ev.source;
        opened_at = ev.occurred_at;
        updated_at = ev.occurred_at;
        grab_span_id = 0;
        has_grab = false;
        download_span_id = 0;
        has_download = false;
        search_start = ev.occurred_at;
        download_started_at = 0;
        download_id = "";
        last_error = "";
        title = ev.title;
        request_id = "";
        requested_by = "";
        resumed = false;
      } in
      (
        state,
        put state (record opened { ctx_by_key = Map.insert ev.key root_ctx opened.ctx_by_key }),
      )

  -- Synthetic prowlarr.search from SearchStart to the grab.
  unfoldable pub emit_search : Context → Event → TraceState → Engine S → Engine S
  unfolding emit
  emit_search root_ctx ev state e =
      let attrs =
        text_attr Schema.media_indexer ev.release.indexer
        ++ ((
          Schema.prowlarr_elapsed_ms,
          int (milliseconds (sub_time ev.occurred_at state.search_start)),
        )
            ∷ []) in
      if not (is_zero state.search_start) && ltb state.search_start ev.occurred_at
      then emit
          (synthetic_span root_ctx Schema.span_prowlarr_search "CLIENT" state.search_start
            ev.occurred_at attrs)
          e
      else e

  -- A grab that is still open is closed with an error.
  unfoldable pub supersede_grab : Context → Event → TraceState → Engine S → TraceState × Engine S
  unfolding emit
  supersede_grab root_ctx ev state e =
      if state.has_grab
      then (
        record state { has_grab = false },
        emit (close_span root_ctx state.grab_span_id ev.occurred_at false "arr.grab_superseded" [])
            e,
      )
      else (state, e)

  unfoldable pub open_grab :
      Builder → Context → Event → TraceState → Engine S → TraceState × Engine S
  unfolding emit put
  open_grab B root_ctx ev state e =
      let span_name =
        if is_radarr ev.source then Schema.span_radarr_grab else Schema.span_sonarr_grab in
      let opened =
        emit (open_child root_ctx span_name "CLIENT" ev.occurred_at (release_attrs ev.release)) e in
      let state' = record state {
        grab_span_id = B.child opened.calls;
        has_grab = true;
        updated_at = ev.occurred_at;
        download_id =
            if ev.release.download_id == "" then state.download_id else ev.release.download_id;
      } in
      (state', put state' opened)

  -- The grab's time runs from the approval, or else from the opening.
  unfoldable pub time_grab : MediaKey → Event → Engine S → Engine S
  unfolding measure
  time_grab key ev e = elim (Map.get key e.timing) [
    | none ↦ e
    | some t ↦
        let t' = record t {
          grabbed_at = ev.occurred_at;
          indexer = ev.release.indexer;
          download_client = ev.release.download_client;
          protocol = ev.release.protocol;
        } in
        let e' = record e { timing = Map.insert key t' e.timing } in
        let anchor = if is_zero t.approved_at then t.opened_at else t.approved_at in
        let observed =
          if is_zero anchor
          then e'
          else measure
              (observe_grab t.media_type ev.release.indexer (sub_time ev.occurred_at anchor)) e' in
        measure (adjust_in_flight Gauge.grab (pos 1)) observed
  ]

  -- A download that arrived before its grab is handled now.
  unfoldable pub replay_download :
      Builder → Context → TraceState → MediaKey → Event → Engine S → Engine S
  replay_download B root_ctx state key ev e = elim (Map.get ev.release.download_id e.pending_dl) [
    | none ↦ e
    | some parked ↦
        if ev.release.download_id == ""
        then e
        else handle_download_start B root_ctx state key parked.event
            (record e { pending_dl = Map.delete ev.release.download_id e.pending_dl })
  ]

  unfoldable pub grab : Builder → Event → TraceState → MediaKey → Engine S → Engine S
  grab B ev state key e =
      let root_ctx = context_of e key in
      let (free, superseded) = supersede_grab root_ctx ev state (emit_search root_ctx ev state e) in
      let (state', opened) = open_grab B root_ctx ev free superseded in
      replay_download B root_ctx state' key ev (time_grab key ev opened)

  unfoldable pub grab_orphan : Builder → Context → Event → Engine S → Engine S
  grab_orphan B ctx ev e =
      let (state, opened) = open_orphan_root B ctx ev e in grab B ev state ev.key opened

  unfoldable pub on_grabbed : Builder → Context → Event → Engine S → Engine S
  on_grabbed B ctx ev e = elim (resolve_trace e ev.key) [
    | some (state, key) ↦ grab B ev state key e
    | none ↦ grab_orphan B ctx ev e
  ]
