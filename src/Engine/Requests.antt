-- ===== src/Engine/Requests.antt =====
-- internal/correlate/engine.go: `onRequestOpened`, `onRequestApproved` and `onRequestClosed`.
use tracearr.Prelude.{
  true, false, not, ◌&&◌, String, List, [], ◌∷◌, ◌++◌, Option, none, some, ◌==◌, string_eq,
  if◌then◌else◌,
}
use tracearr.Prelude.Int.{ℤ, pos, negsuc, wrapping_suc}
use tracearr.Prelude.Clock.{sub_time}
use tracearr.Prelude.Map
use tracearr.Event.{
  MediaKey, key_eq, Event, Outcome, failed, source_text, outcome_text, is_available,
}
use tracearr.Store.{Store, TraceState, ClosedTrace}
use tracearr.Spans.Schema
use tracearr.Spans.Schema.{Attr, text}
use tracearr.Engine.Calls.{
  Context, Link, Builder, open_root, close_span, synthetic_span, add_span_event, Gauge,
  observe_request, count_attempt, adjust_in_flight,
}
use tracearr.Engine.State.{Engine, emit, measure, put, context_of, update_timing, resolve_trace}
use tracearr.Engine.Attributes.{
  text_attr, base_attrs, resumed_root_attrs, upgrade_reason_for_outcome, link_to_prior,
}

-- The attempt after a prior trace.
unfoldable pub next_attempt : Option ClosedTrace → ℤ
next_attempt none = pos 1
next_attempt (some prior) = wrapping_suc prior.attempt

unfoldable pub request_links : Option ClosedTrace → List Link
request_links none = []
request_links (some prior) = link_to_prior prior (upgrade_reason_for_outcome prior.outcome) ∷ []

-- mustRecallOutcome, of what the store recalled
unfoldable pub must_recall_outcome : Option ClosedTrace → Outcome
must_recall_outcome none = failed
must_recall_outcome (some c) = c.outcome

unfoldable pub request_attrs : Event → ℤ → List Attr → List Attr
request_attrs ev attempt reason =
    base_attrs ev.key ev.title attempt
    ++ ((Schema.media_source, text (source_text ev.source))
        ∷ (text_attr Schema.media_request_id ev.request_id
            ++ (text_attr Schema.media_requested_by ev.requested_by ++ reason)))

module _ {S : Store} where
  -- With a link the outcome is recalled again for the reason.
  unfoldable pub request_reason : Event → Option ClosedTrace → Engine S → List Attr × Engine S
  unfolding must_recall_outcome
  request_reason ev none e = ([], e)
  request_reason ev (some _) e =
      let (again, s) = S.recall_closed e.store ev.key ev.occurred_at in
      (
        (Schema.media_upgrade_reason, text (upgrade_reason_for_outcome (must_recall_outcome again)))
            ∷ [],
        record e { store = s },
      )

  -- The new root's context, its record and its timing are kept.
  unfoldable pub install_request : Event → Context → TraceState → Engine S → Engine S
  unfolding put measure
  install_request ev root_ctx state e =
      let e' = put state (record e { ctx_by_key = Map.insert ev.key root_ctx e.ctx_by_key }) in
      measure (adjust_in_flight Gauge.request (pos 1)) (record e' {
        timing =
            Map.insert ev.key
              (record {
                opened_at = ev.occurred_at;
                approved_at = 0;
                grabbed_at = 0;
                download_started_at = 0;
                download_ended_at = 0;
                indexer = "";
                download_client = "";
                protocol = "";
                media_type = ev.key.type;
                source = source_text ev.source;
              })
              e'.timing;
      })

  -- The root span is opened: the record of the new trace, and the root's context.
  unfoldable pub start_request :
      Builder → Context → Event → Engine S → TraceState × Context × Engine S
  unfolding request_reason emit
  start_request B ctx ev e =
      let (prior, s) = S.recall_closed e.store ev.key ev.occurred_at in
      let attempt = next_attempt prior in
      let (reason, recalled) = request_reason ev prior (record e { store = s }) in
      let opened =
        emit
          (open_root ctx Schema.span_media_request "SERVER" ev.occurred_at
            (request_attrs ev attempt reason) (request_links prior))
          recalled in
      let (root_ctx, tid, sid) = B.root opened.calls in
      (
        record {
          key = ev.key;
          trace_id = tid;
          root_span_id = sid;
          attempt = attempt;
          source = ev.source;
          opened_at = ev.occurred_at;
          updated_at = ev.occurred_at;
          grab_span_id = 0;
          has_grab = false;
          download_span_id = 0;
          has_download = false;
          search_start = ev.occurred_at;
          download_started_at = 0;
          download_id = "";
          last_error = "";
          title = ev.title;
          request_id = ev.request_id;
          requested_by = ev.requested_by;
          resumed = false;
        },
        root_ctx,
        opened,
      )

  unfoldable pub open_request : Builder → Context → Event → Engine S → Engine S
  open_request B ctx ev e =
      let (state, root_ctx, opened) = start_request B ctx ev e in
      install_request ev root_ctx state opened

  unfoldable pub on_request_opened : Builder → Context → Event → Engine S → Engine S
  on_request_opened B ctx ev e = elim (resolve_trace e ev.key) [
    | some _ ↦ e
    | none ↦ open_request B ctx ev e
  ]

  unfoldable pub approve : Event → TraceState → MediaKey → Engine S → Engine S
  unfolding put update_timing emit
  approve ev state key e =
      let root_ctx = context_of e key in
      let state' = record state { search_start = ev.occurred_at; updated_at = ev.occurred_at } in
      emit (add_span_event root_ctx 0 "request.approved" ev.occurred_at [])
        (update_timing key (λ t. record t { approved_at = ev.occurred_at }) (put state' e))

  unfoldable pub on_request_approved : Event → Engine S → Engine S
  on_request_approved ev e = elim (resolve_trace e ev.key) [
    | none ↦ e
    | some (state, key) ↦ approve ev state key e
  ]

  -- "Defensive close of any still-open children opened in this process": the download, then the grab.
  unfoldable pub close_download : Context → Event → TraceState × Engine S → TraceState × Engine S
  unfolding emit
  close_download root_ctx ev (state, e) =
      if state.has_download
      then (
        record state { has_download = false },
        emit (close_span root_ctx state.download_span_id ev.occurred_at true "" []) e,
      )
      else (state, e)

  unfoldable pub close_grab : Context → Event → TraceState × Engine S → TraceState × Engine S
  unfolding emit
  close_grab root_ctx ev (state, e) =
      if state.has_grab
      then (
        record state { has_grab = false },
        emit (close_span root_ctx state.grab_span_id ev.occurred_at true "" []) e,
      )
      else (state, e)

  unfoldable pub close_request_root : Context → Event → TraceState → Engine S → Engine S
  unfolding emit
  close_request_root root_ctx ev state e =
      let ok_status = is_available ev.outcome in
      let error_attrs =
        if not ok_status && not (ev.error_reason == "")
        then ("error.type", text ev.error_reason) ∷ []
        else [] in
      if state.resumed
      then emit
          (synthetic_span Context.todo Schema.span_media_request "SERVER" state.opened_at
            ev.occurred_at (resumed_root_attrs state ++ error_attrs))
          e
      else emit (close_span root_ctx 0 ev.occurred_at ok_status ev.error_reason []) e

  -- The trace leaves the engine and the store, which remembers it as closed.
  unfoldable pub forget_trace : MediaKey → TraceState → Outcome → Event → Engine S → Engine S
  forget_trace key state outcome ev e = record e {
    ctx_by_key = Map.delete key e.ctx_by_key;
    store =
        S.remember_closed (S.delete e.store key) key state.trace_id state.attempt outcome
          ev.occurred_at;
  }

  -- The metrics of a closed request. The grab's gauge falls where the record has an open grab.
  unfoldable pub finish_timing :
      MediaKey → TraceState → Outcome → String → Event → Engine S → Engine S
  unfolding measure
  finish_timing key state outcome reason ev e = elim (Map.get key e.timing) [
    | none ↦ e
    | some t ↦
        let e₁ =
          measure
            (observe_request t.media_type t.source (outcome_text outcome)
              (sub_time ev.occurred_at t.opened_at))
            e in
        let e₂ = measure (count_attempt t.media_type (outcome_text outcome) reason) e₁ in
        let e₃ = measure (adjust_in_flight Gauge.request (negsuc 0)) e₂ in
        let e₄ =
          if state.has_grab then measure (adjust_in_flight Gauge.grab (negsuc 0)) e₃ else e₃ in
        record e₄ { timing = Map.delete key e₄.timing }
  ]

  unfoldable pub close_request : Event → TraceState → MediaKey → Engine S → Engine S
  close_request ev state key e =
      let root_ctx = context_of e key in
      let (state', e') = close_grab root_ctx ev (close_download root_ctx ev (state, e)) in
      finish_timing key state' ev.outcome "" ev
        (forget_trace key state' ev.outcome ev (close_request_root root_ctx ev state' e'))

  unfoldable pub on_request_closed : Event → Engine S → Engine S
  on_request_closed ev e = elim (resolve_trace e ev.key) [
    | none ↦ e
    | some (state, key) ↦ close_request ev state key e
  ]
