-- ===== src/Engine/Attempts.antt =====
-- internal/correlate/engine.go: a request for media whose earlier trace was closed is a new attempt,
-- linked to that trace.
use tracearr.Prelude.{◌≡◌, refl, false, List, [], ◌∷◌, Option, none, some, arith, beq_refl, ◌∙◌, ap}
use tracearr.Prelude.Int.{wrapping_suc}
use tracearr.Event.{MediaKey, key_eq, Event}
use tracearr.Store.{Store, KeyLaws, RecallLaws, TraceState, ClosedTrace}
use tracearr.Spans.Schema
use tracearr.Spans.Schema.{Attr}
use tracearr.Engine.Calls.{Context, Builder, open_root}
use tracearr.Engine.State.{Engine, context_of, resolve_trace}
use tracearr.Engine.Attributes.{link_to_prior, upgrade_reason_for_outcome}
use tracearr.Engine.Requests.{
  next_attempt, request_links, request_attrs, request_reason, start_request, install_request,
  open_request, on_request_opened, close_download, close_grab, close_request_root, forget_trace,
  close_request, on_request_closed,
}
use tracearr.Engine.Records.Requests.{
  get-open_request, close_download-SameTraces, close_grab-SameTraces, close_request_root-SameTraces,
  finish_timing-SameTraces,
}

-- What the store keeps of a closed trace.
abbrev pub closed_record : Event → TraceState → ClosedTrace
closed_record ev t = record {
  trace_id = t.trace_id;
  attempt = t.attempt;
  outcome = ev.outcome;
  closed_at = ev.occurred_at;
}

module _ {S : Store} where
  unchanged_close :
      (ctx : Context) (ev : Event) (t : TraceState) (e : Engine S)
      → let q = close_grab ctx ev (close_download ctx ev (t, e)) in
        (q.0.trace_id ≡ t.trace_id) × (q.0.attempt ≡ t.attempt)
  unfolding close_grab close_download
  unchanged_close ctx ev t e = ground arith

  store-close_request :
      (ev : Event) (t : TraceState) (key : MediaKey) (e : Engine S)
      → (close_request ev t key e).store
        ≡ S.remember_closed
            (S.delete e.store key)
            key
            t.trace_id
            t.attempt
            ev.outcome
            ev.occurred_at
  unfolding close_request forget_trace
  store-close_request ev t key e =
      let ctx = context_of e key in
      let p = close_download ctx ev (t, e) in
      let q = close_grab ctx ev p in
      let closed = close_request_root ctx ev q.0 q.1 in
      cc (
        (finish_timing-SameTraces key q.0 ev.outcome "" ev
            (forget_trace key q.0 ev.outcome ev closed)).0,
        (close_request_root-SameTraces ctx ev q.0 q.1).0,
        (close_grab-SameTraces ctx ev p).0,
        (close_download-SameTraces ctx ev (t, e)).0,
        (unchanged_close ctx ev t e).0,
        (unchanged_close ctx ev t e).1,
      )

  store-on_request_closed :
      (ev : Event) (t : TraceState) (key : MediaKey) (e : Engine S)
      → resolve_trace e ev.key ≡ some (t, key)
      → (on_request_closed ev e).store
        ≡ S.remember_closed
            (S.delete e.store key)
            key
            t.trace_id
            t.attempt
            ev.outcome
            ev.occurred_at
  unfolding on_request_closed
  store-on_request_closed ev t key e found =
      rw (found, on_request_closed) (store-close_request ev t key e)

  calls-request_reason :
      (ev : Event) (prior : Option ClosedTrace) (e : Engine S)
      → (request_reason ev prior e).1.calls ≡ e.calls
  unfolding request_reason
  calls-request_reason ev none e = refl
  calls-request_reason ev (some c) e = refl

  -- The root that a request opens when the store recalls a closed trace.
  open_request-linked :
      (B : Builder) (ctx : Context) (ev : Event) (e : Engine S) (prior : ClosedTrace)
      → (S.recall_closed e.store ev.key ev.occurred_at).0 ≡ some prior
      → ((start_request B ctx ev e).0.attempt ≡ wrapping_suc prior.attempt)
        × ((attrs : List Attr) × ((open_request B ctx ev e).calls
              ≡ open_root ctx Schema.span_media_request "SERVER" ev.occurred_at attrs
                  (link_to_prior prior (upgrade_reason_for_outcome prior.outcome) ∷ [])
                ∷ e.calls))
  unfolding open_request start_request install_request next_attempt request_links
  open_request-linked B ctx ev e prior recalled =
      let (found, s) = S.recall_closed e.store ev.key ev.occurred_at in
      let (reason, after) = request_reason ev found (record e { store = s }) in
      (
        ap next_attempt recalled,
        (
          request_attrs ev (next_attempt found) reason,
          cc (ap request_links recalled, calls-request_reason ev found (record e { store = s })),
        ),
      )

module _ {S : Store} (L : KeyLaws S) (R : RecallLaws S) where
  open R use {expires, recall-remember_closed, expires-delete}

  -- Over a store that keeps its promises: an event closes the trace that stands under a key, and
  -- later, while the store still recalls it and nothing else is in flight for the key, a request
  -- for the same key arrives. Then a trace is opened whose attempt is one more, as an int wraps, and its root links
  -- to the closed trace with the reason that the closing outcome gives.
  pub reopened_links :
      (B : Builder) (ctx : Context) (closing opening : Event) (t : TraceState) (e : Engine S)
      → resolve_trace e closing.key ≡ some (t, opening.key)
      → expires e.store closing.occurred_at opening.occurred_at ≡ false
      → let closed = on_request_closed closing e in
        resolve_trace closed opening.key ≡ none
        → let reopened = on_request_opened B ctx opening closed in
          (t' : TraceState) × (S.get reopened.store opening.key ≡ some t')
          × (t'.attempt ≡ wrapping_suc t.attempt)
          × ((attrs : List Attr) × (reopened.calls
                ≡ open_root ctx Schema.span_media_request "SERVER" opening.occurred_at attrs (
                    link_to_prior
                      (closed_record closing t)
                      (upgrade_reason_for_outcome closing.outcome)
                    ∷ [])
                  ∷ closed.calls))
  unfolding on_request_opened
  reopened_links B ctx closing opening t e found kept missing =
      let closed = on_request_closed closing e in
      let recalled : (S.recall_closed closed.store opening.key opening.occurred_at).0
          ≡ some (closed_record closing t) =
        rw (store-on_request_closed closing t opening.key e found) (
          recall-remember_closed (S.delete e.store opening.key) opening.key t.trace_id t.attempt
            closing.outcome closing.occurred_at opening.occurred_at
            (expires-delete e.store opening.key closing.occurred_at opening.occurred_at ∙ kept)) in
      let (attempt, linked) =
        open_request-linked B ctx opening closed (closed_record closing t) recalled in
      rw (missing, on_request_opened)
        (
          (start_request B ctx opening closed).0,
          rw (get-open_request L B ctx opening closed opening.key, beq_refl opening.key),
          attempt,
          linked,
        )
