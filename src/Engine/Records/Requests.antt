-- ===== src/Engine/Records/Requests.antt =====
-- What the handlers of requests do to the records and the contexts.
use tracearr.Prelude.{◌≡◌, refl, false, String, none, some, if◌then◌else◌, arith}
use tracearr.Event.{MediaKey, key_eq, key_beq, Event, Outcome}
use tracearr.Store.{Store, KeyLaws, TraceState}
use tracearr.Engine.Calls.{Context, Builder}
use tracearr.Engine.State.{LifecycleTiming, Engine, update_timing, context_of}
use tracearr.Engine.Requests.{
  start_request, request_reason, install_request, open_request, approve, close_download, close_grab,
  close_request_root, forget_trace, finish_timing, close_request,
}

-- The steps of a handler that touch neither the store nor the contexts.
abbrev pub SameTraces : {S : Store} → Engine S → Engine S → Type 0
SameTraces e e' = (e'.store ≡ e.store) × (e'.ctx_by_key ≡ e.ctx_by_key)

module _ {S : Store} where
  pub update_timing-SameTraces :
      (key : MediaKey) (f : LifecycleTiming → LifecycleTiming) (e : Engine S)
      → SameTraces e (update_timing key f e)
  unfolding update_timing
  update_timing-SameTraces key f e = ground arith

  pub close_download-SameTraces :
      (ctx : Context) (ev : Event) (p : TraceState × Engine S)
      → SameTraces p.1 (close_download ctx ev p).1
  unfolding close_download
  close_download-SameTraces ctx ev (t, e) = ground arith

  pub close_grab-SameTraces :
      (ctx : Context) (ev : Event) (p : TraceState × Engine S)
      → SameTraces p.1 (close_grab ctx ev p).1
  unfolding close_grab
  close_grab-SameTraces ctx ev (t, e) = ground arith

  pub close_download-state :
      (ctx : Context) (ev : Event) (t : TraceState) (e : Engine S)
      → (close_download ctx ev (t, e)).0 ≡ record t { has_download = false }
  unfolding close_download
  close_download-state ctx ev t e = ground arith

  pub close_grab-state :
      (ctx : Context) (ev : Event) (t : TraceState) (e : Engine S)
      → (close_grab ctx ev (t, e)).0 ≡ record t { has_grab = false }
  unfolding close_grab
  close_grab-state ctx ev t e = ground arith

  pub close_request_root-SameTraces :
      (ctx : Context) (ev : Event) (t : TraceState) (e : Engine S)
      → SameTraces e (close_request_root ctx ev t e)
  unfolding close_request_root
  close_request_root-SameTraces ctx ev t e = ground arith

  pub finish_timing-SameTraces :
      (key : MediaKey) (t : TraceState) (o : Outcome) (why : String) (ev : Event) (e : Engine S)
      → SameTraces e (finish_timing key t o why ev e)
  unfolding finish_timing
  finish_timing-SameTraces key t o why ev e = ground arith

  pub start_request-fields :
      (B : Builder) (ctx : Context) (ev : Event) (e : Engine S)
      → let t = (start_request B ctx ev e).0 in
        (t.key ≡ ev.key) × (t.has_grab ≡ false) × (t.has_download ≡ false)
  unfolding start_request
  start_request-fields B ctx ev e = (refl, refl, refl)

module _ {S : Store} (L : KeyLaws S) where
  open L use {get-put, get-delete as get-store_delete, get-recall_closed, get-remember_closed}

  pub get-start_request :
      (B : Builder) (ctx : Context) (ev : Event) (e : Engine S) (j : MediaKey)
      → S.get (start_request B ctx ev e).2.store j ≡ S.get e.store j
  unfolding start_request request_reason
  get-start_request B ctx ev e j = ground (
    arith,
    get-recall_closed e.store ev.key ev.occurred_at j,
    get-recall_closed (S.recall_closed e.store ev.key ev.occurred_at).1 ev.key ev.occurred_at j,
  )

  pub get-open_request :
      (B : Builder) (ctx : Context) (ev : Event) (e : Engine S) (j : MediaKey)
      → S.get (open_request B ctx ev e).store j
        ≡ (if key_beq ev.key j then some (start_request B ctx ev e).0 else S.get e.store j)
  unfolding open_request install_request
  get-open_request B ctx ev e j =
      let (t, root_ctx, e') = start_request B ctx ev e in
      rw (get-put e'.store t j, get-start_request B ctx ev e j, (start_request-fields B ctx ev e).0)

  pub get-approve :
      (ev : Event) (t : TraceState) (key : MediaKey) (e : Engine S) (j : MediaKey)
      → S.get (approve ev t key e).store j ≡ (
          if key_beq t.key j
          then some (record t { search_start = ev.occurred_at; updated_at = ev.occurred_at })
          else S.get e.store j)
  unfolding approve
  get-approve ev t key e j = ground (
    arith,
    get-put e.store (record t { search_start = ev.occurred_at; updated_at = ev.occurred_at }) j,
  )

  pub get-close_request :
      (ev : Event) (t : TraceState) (key : MediaKey) (e : Engine S) (j : MediaKey)
      → S.get (close_request ev t key e).store j ≡ (if key_beq key j then none else S.get e.store j)
  unfolding close_request forget_trace
  get-close_request ev t key e j =
      let root_ctx = context_of e key in
      let p = close_download root_ctx ev (t, e) in
      let q = close_grab root_ctx ev p in
      ground (
        arith,
        close_download-SameTraces root_ctx ev (t, e),
        close_grab-SameTraces root_ctx ev p,
        close_request_root-SameTraces root_ctx ev q.0 q.1,
        finish_timing-SameTraces key q.0 ev.outcome "" ev
            (forget_trace key q.0 ev.outcome ev (close_request_root root_ctx ev q.0 q.1)),
        get-store_delete e.store key j,
        get-remember_closed (S.delete e.store key) key q.0.trace_id q.0.attempt ev.outcome
            ev.occurred_at j,
      )
