-- ===== src/Engine/Coherence/Requests.antt =====
-- The handlers of requests keep the traces coherent.
use tracearr.Prelude.{
  ◌≡◌, refl, Option, none, some, arith, Option-cases, inl, inr, subst, sym, if◌then◌else◌,
}
use tracearr.Prelude.Map
use tracearr.Prelude.Map.{get-insert, get-delete}
use tracearr.Event.{MediaKey, key_eq, key_beq, Event}
use tracearr.Store.{Store, KeyLaws, TraceState, ClosedTrace}
use tracearr.Engine.Calls.{Context, Builder}
use tracearr.Engine.State.{LifecycleTiming, Engine, context_of, put, resolve_trace}
use tracearr.Engine.Requests.{
  start_request, request_reason, install_request, open_request, on_request_opened, approve,
  on_request_approved, close_download, close_grab, close_request_root, forget_trace, close_request,
  on_request_closed,
}
use tracearr.Engine.Records.Resolve.{resolve_trace_own}
use tracearr.Engine.Records.Requests.{
  get-open_request, get-approve, get-close_request, close_download-SameTraces,
  close_grab-SameTraces, close_request_root-SameTraces, finish_timing-SameTraces,
  update_timing-SameTraces,
}
use tracearr.Engine.Coherence.Defs.{Coherent, Coherent-replace, Coherent-update}

module _ {S : Store} where
  ctx_by_key-open_request :
      (B : Builder) (ctx : Context) (ev : Event) (e : Engine S) (j : MediaKey)
      → Map.get j (open_request B ctx ev e).ctx_by_key
        ≡ (if key_beq ev.key j then some (start_request B ctx ev e).1 else Map.get j e.ctx_by_key)
  unfolding open_request start_request request_reason install_request
  ctx_by_key-open_request B ctx ev e j =
      ground (arith, get-insert ev.key j (start_request B ctx ev e).1 e.ctx_by_key)

  ctx_by_key-approve :
      (ev : Event) (t : TraceState) (key : MediaKey) (e : Engine S)
      → (approve ev t key e).ctx_by_key ≡ e.ctx_by_key
  unfolding approve
  ctx_by_key-approve ev t key e =
      (update_timing-SameTraces key
        (λ (u : LifecycleTiming). record u { approved_at = ev.occurred_at })
        (put (record t { search_start = ev.occurred_at; updated_at = ev.occurred_at }) e)).1

  -- What a closed request leaves of the store and of the contexts.
  close_request-traces :
      (ev : Event) (t : TraceState) (key : MediaKey) (e : Engine S)
      → (t' : TraceState) × ((close_request ev t key e).store
          ≡ S.remember_closed
              (S.delete e.store key)
              key
              t'.trace_id
              t'.attempt
              ev.outcome
              ev.occurred_at)
        × ((close_request ev t key e).ctx_by_key ≡ Map.delete key e.ctx_by_key)
  unfolding close_request forget_trace
  close_request-traces ev t key e =
      let ctx = context_of e key in
      let p = close_download ctx ev (t, e) in
      let q = close_grab ctx ev p in
      let closed = close_request_root ctx ev q.0 q.1 in
      let finished =
        finish_timing-SameTraces key q.0 ev.outcome "" ev
          (forget_trace key q.0 ev.outcome ev closed) in
      let same = close_download-SameTraces ctx ev (t, e) in
      let same' = close_grab-SameTraces ctx ev p in
      let same'' = close_request_root-SameTraces ctx ev q.0 q.1 in
      (q.0, cc (finished.0, same.0, same'.0, same''.0), cc (finished.1, same.1, same'.1, same''.1))

module _ {S : Store} (L : KeyLaws S) where
  open L use {Wf, Wf-put, Wf-delete, Wf-recall_closed, Wf-remember_closed}

  Wf-request_reason :
      (ev : Event) (prior : Option ClosedTrace) (e : Engine S)
      → Wf e.store
      → Wf (request_reason ev prior e).1.store
  unfolding request_reason
  Wf-request_reason ev none e wf = wf
  Wf-request_reason ev (some c) e wf = Wf-recall_closed e.store ev.key ev.occurred_at wf

  Wf-open_request :
      (B : Builder) (ctx : Context) (ev : Event) (e : Engine S)
      → Wf e.store
      → Wf (open_request B ctx ev e).store
  unfolding open_request start_request install_request
  Wf-open_request B ctx ev e wf =
      let (prior, s) = S.recall_closed e.store ev.key ev.occurred_at in
      Wf-put _ (start_request B ctx ev e).0 (
        Wf-request_reason ev prior (record e { store = s })
          (Wf-recall_closed e.store ev.key ev.occurred_at wf))

  Wf-approve :
      (ev : Event) (t : TraceState) (key : MediaKey) (e : Engine S)
      → Wf e.store
      → Wf (approve ev t key e).store
  unfolding approve
  Wf-approve ev t key e wf =
      let t' = record t { search_start = ev.occurred_at; updated_at = ev.occurred_at } in
      subst Wf
        (sym
          (update_timing-SameTraces key
            (λ (u : LifecycleTiming). record u { approved_at = ev.occurred_at }) (put t' e)).0)
        (Wf-put e.store t' wf)

  pub on_request_opened-Coherent :
      (B : Builder) (ctx : Context) (ev : Event) (e : Engine S)
      → Coherent L e
      → Coherent L (on_request_opened B ctx ev e)
  unfolding on_request_opened
  on_request_opened-Coherent B ctx ev e h = elim (Option-cases (resolve_trace e ev.key)) [
    | inr (_, found) ↦ rw (found, on_request_opened) h
    | inl missing ↦
        rw (missing, on_request_opened)
          (Coherent-replace L e (open_request B ctx ev e) ev.key (some (start_request B ctx ev e).0)
            (some (start_request B ctx ev e).1) (Wf-open_request B ctx ev e h.wf)
            (get-open_request L B ctx ev e) (ctx_by_key-open_request B ctx ev e) refl h)
  ]

  pub on_request_approved-Coherent :
      (ev : Event) (e : Engine S) → Coherent L e → Coherent L (on_request_approved ev e)
  unfolding on_request_approved
  on_request_approved-Coherent ev e h = elim (Option-cases (resolve_trace e ev.key)) [
    | inl missing ↦ rw (missing, on_request_approved) h
    | inr ((t, key), found) ↦
        rw (found, on_request_approved)
          (Coherent-update L e (approve ev t key e) t.key t
            (record t { search_start = ev.occurred_at; updated_at = ev.occurred_at })
            (Wf-approve ev t key e h.wf) (resolve_trace_own L e ev.key h.wf found)
            (get-approve L ev t key e) (ctx_by_key-approve ev t key e) h)
  ]

  pub on_request_closed-Coherent :
      (ev : Event) (e : Engine S) → Coherent L e → Coherent L (on_request_closed ev e)
  unfolding on_request_closed
  on_request_closed-Coherent ev e h = elim (Option-cases (resolve_trace e ev.key)) [
    | inl missing ↦ rw (missing, on_request_closed) h
    | inr ((t, key), found) ↦
        let (t', store, contexts) = close_request-traces ev t key e in
        rw (found, on_request_closed)
          (Coherent-replace L e (close_request ev t key e) key none none
            (subst Wf (sym store) (Wf-remember_closed _ key _ _ _ _ (Wf-delete e.store key h.wf)))
            (get-close_request L ev t key e)
            (λ j. ground (arith, contexts, get-delete key j e.ctx_by_key)) refl h)
  ]
