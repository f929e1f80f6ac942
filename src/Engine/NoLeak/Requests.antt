-- ===== src/Engine/NoLeak/Requests.antt =====
-- The handlers of requests leave no child span behind: a closed request closes its grab and download.
use tracearr.Prelude.{◌≡◌, refl, true, false, String, none, some, arith, Option-cases, inl, inr}
use tracearr.Event.{MediaKey, key_eq, Event, Outcome}
use tracearr.Store.{Store, KeyLaws, TraceState, SpanId}
use tracearr.Engine.Calls.{Context, Builder}
use tracearr.Engine.State.{LifecycleTiming, Engine, update_timing, context_of, resolve_trace, put}
use tracearr.Engine.Requests.{
  start_request, request_reason, install_request, open_request, on_request_opened, approve,
  on_request_approved, close_download, close_grab, close_request_root, forget_trace, finish_timing,
  close_request, on_request_closed,
}
use tracearr.Engine.OpenSpans.{is_open, is_loose, NoLeak, NoLeak-replace}
use tracearr.Engine.Records.Resolve.{resolve_trace-get, resolve_trace_missing, resolve_trace_own}
use tracearr.Engine.Records.Requests.{
  get-open_request, get-approve, get-close_request, close_download-state, close_grab-state,
}

module _ {S : Store} where
  pub calls-update_timing :
      (key : MediaKey) (f : LifecycleTiming → LifecycleTiming) (e : Engine S)
      → (update_timing key f e).calls ≡ e.calls
  unfolding update_timing
  calls-update_timing key f e = ground arith

  pub calls-finish_timing :
      (key : MediaKey) (t : TraceState) (o : Outcome) (why : String) (ev : Event) (e : Engine S)
      → (finish_timing key t o why ev e).calls ≡ e.calls
  unfolding finish_timing
  calls-finish_timing key t o why ev e = ground arith

module _ (B : Builder) {S : Store} where
  pub close_download-loose :
      (ctx : Context) (ev : Event) (t : TraceState) (e : Engine S) (id : SpanId)
      → let (t', e') = close_download ctx ev (t, e) in
        is_loose B e'.calls (some t') id ≡ true → is_loose B e.calls (some t) id ≡ true
  unfolding close_download is_loose is_open
  close_download-loose ctx ev t e id = ground arith

  pub close_grab-loose :
      (ctx : Context) (ev : Event) (t : TraceState) (e : Engine S) (id : SpanId)
      → let (t', e') = close_grab ctx ev (t, e) in
        is_loose B e'.calls (some t') id ≡ true → is_loose B e.calls (some t) id ≡ true
  unfolding close_grab is_loose is_open
  close_grab-loose ctx ev t e id = ground arith

  close_request_root-loose :
      (ctx : Context) (ev : Event) (t : TraceState) (e : Engine S) (id : SpanId)
      → t.has_grab ≡ false
      → t.has_download ≡ false
      → is_loose B (close_request_root ctx ev t e).calls none id ≡ true
      → is_loose B e.calls (some t) id ≡ true
  unfolding close_request_root is_loose is_open
  close_request_root-loose ctx ev t e id g d = ground arith

  start_request-open :
      (ctx : Context) (ev : Event) (e : Engine S) (id : SpanId)
      → is_open B (start_request B ctx ev e).2.calls id ≡ is_open B e.calls id
  unfolding start_request request_reason is_open
  start_request-open ctx ev e id = ground arith

  calls-open_request :
      (ctx : Context) (ev : Event) (e : Engine S)
      → (open_request B ctx ev e).calls ≡ (start_request B ctx ev e).2.calls
  unfolding open_request install_request
  calls-open_request ctx ev e = refl

  approve-open :
      (ev : Event) (t : TraceState) (key : MediaKey) (e : Engine S) (id : SpanId)
      → is_open B (approve ev t key e).calls id ≡ is_open B e.calls id
  unfolding approve is_open
  approve-open ev t key e id =
      let t' = record t { search_start = ev.occurred_at; updated_at = ev.occurred_at } in
      ground (
        arith,
        calls-update_timing key (λ (u : LifecycleTiming). record u { approved_at = ev.occurred_at })
            (put t' e),
      )

  close_request-loose :
      (ev : Event) (t : TraceState) (key : MediaKey) (e : Engine S) (id : SpanId)
      → is_loose B (close_request ev t key e).calls none id ≡ true
      → is_loose B e.calls (some t) id ≡ true
  unfolding close_request forget_trace
  close_request-loose ev t key e id h =
      let ctx = context_of e key in
      let p = close_download ctx ev (t, e) in
      let q = close_grab ctx ev p in
      let closed = close_request_root ctx ev q.0 q.1 in
      close_download-loose ctx ev t e id (
        close_grab-loose ctx ev p.0 p.1 id (
          close_request_root-loose ctx ev q.0 q.1 id
            (ground (arith, close_grab-state ctx ev p.0 p.1))
            (ground (arith, close_grab-state ctx ev p.0 p.1, close_download-state ctx ev t e))
            (ground (
              arith,
              calls-finish_timing key q.0 ev.outcome "" ev
                  (forget_trace key q.0 ev.outcome ev closed),
            ))))

module _ (B : Builder) {S : Store} (L : KeyLaws S) where
  open L use {Wf, get_keyed}

  open_request-NoLeak :
      (ctx : Context) (ev : Event) (e : Engine S)
      → S.get e.store ev.key ≡ none
      → NoLeak B e
      → NoLeak B (open_request B ctx ev e)
  unfolding is_loose
  open_request-NoLeak ctx ev e absent =
      NoLeak-replace B e (open_request B ctx ev e) ev.key none (some (start_request B ctx ev e).0)
        absent (get-open_request L B ctx ev e)
        (λ id loose.
          ground (arith, start_request-open B ctx ev e id, calls-open_request B ctx ev e))

  pub on_request_opened-NoLeak :
      (ctx : Context) (ev : Event) (e : Engine S)
      → NoLeak B e
      → NoLeak B (on_request_opened B ctx ev e)
  unfolding on_request_opened
  on_request_opened-NoLeak ctx ev e h = elim (Option-cases (resolve_trace e ev.key)) [
    | inr (_, found) ↦ rw (found, on_request_opened) h
    | inl missing ↦
        rw (missing, on_request_opened)
          (open_request-NoLeak ctx ev e (resolve_trace_missing e ev.key missing) h)
  ]

  approve-NoLeak :
      (ev : Event) (t : TraceState) (key : MediaKey) (e : Engine S)
      → S.get e.store t.key ≡ some t
      → NoLeak B e
      → NoLeak B (approve ev t key e)
  unfolding is_loose
  approve-NoLeak ev t key e there =
      let t' = record t { search_start = ev.occurred_at; updated_at = ev.occurred_at } in
      NoLeak-replace B e (approve ev t key e) t.key (some t) (some t') there
        (get-approve L ev t key e) (λ id loose. ground (arith, approve-open B ev t key e id))

  pub on_request_approved-NoLeak :
      (ev : Event) (e : Engine S) → Wf e.store → NoLeak B e → NoLeak B (on_request_approved ev e)
  unfolding on_request_approved
  on_request_approved-NoLeak ev e wf h = elim (Option-cases (resolve_trace e ev.key)) [
    | inl missing ↦ rw (missing, on_request_approved) h
    | inr ((t, key), found) ↦
        rw (found, on_request_approved)
          (approve-NoLeak ev t key e (resolve_trace_own L e ev.key wf found) h)
  ]

  pub on_request_closed-NoLeak :
      (ev : Event) (e : Engine S) → NoLeak B e → NoLeak B (on_request_closed ev e)
  unfolding on_request_closed
  on_request_closed-NoLeak ev e h = elim (Option-cases (resolve_trace e ev.key)) [
    | inl missing ↦ rw (missing, on_request_closed) h
    | inr ((t, key), found) ↦
        rw (found, on_request_closed)
          (NoLeak-replace B e (close_request ev t key e) key (some t) none
            (resolve_trace-get e ev.key found) (get-close_request L ev t key e)
            (close_request-loose B ev t key e) h)
  ]
