-- ===== src/Engine/Writes/Changes.antt =====
-- internal/correlate/engine.go: the handlers change the store by its operations alone.
use tracearr.Prelude.{
  false, String, Option, none, some, Option-cases, Bool-cases, inl, inr, subst, sym, ◌∙◌, ◌==◌,
  string_eq,
}
use tracearr.Prelude.Int.{ℤ}
use tracearr.Prelude.Clock.{Time}
use tracearr.Prelude.Map
use tracearr.Event.{MediaKey, key_eq, Event, Outcome, available}
use tracearr.Store.{Store, TraceState, TraceId, ClosedTrace}
use tracearr.Spans.Schema
use tracearr.Engine.Calls.{Context, Builder}
use tracearr.Engine.State.{LifecycleTiming, Engine, context_of, resolve_trace}
use tracearr.Engine.State
use tracearr.Engine.Requests.{
  start_request, request_reason, install_request, open_request, approve, close_download, close_grab,
  close_request_root, forget_trace, finish_timing, close_request,
}
use tracearr.Engine.Downloads.{
  start_download, open_download, handle_download_start, close_transfer, finish_download,
}
use tracearr.Engine.Grabs.{emit_search, supersede_grab, open_grab, time_grab, replay_download, grab}
use tracearr.Engine.Imports.{
  emit_import, time_import, close_orphan_root, close_orphan, finish_import,
}
use tracearr.Engine.Records.Requests.{
  update_timing-SameTraces, close_download-SameTraces, close_grab-SameTraces,
  close_request_root-SameTraces, finish_timing-SameTraces,
}
use tracearr.Engine.Records.Downloads.{
  time_download_start-SameTraces, start_download-SameTraces, time_download_end-SameTraces,
  close_transfer-SameTraces,
}
use tracearr.Engine.Records.Grabs.{
  emit_search-SameTraces, supersede_grab-SameTraces, time_grab-SameTraces,
}
use tracearr.Engine.Records.Imports.{
  is_orphan, emit_import-SameTraces, time_import-SameTraces, close_orphan_root-SameTraces,
}

pub data Writes (S : Store) (s : S.State) : S.State → Type 0 where
  here : Writes S s s
  put : {u : S.State} → Writes S s u → (t : TraceState) → Writes S s (S.put u t)
  delete : {u : S.State} → Writes S s u → (k : MediaKey) → Writes S s (S.delete u k)
  remember :
      {u : S.State}
      → Writes S s u
      → (k : MediaKey) (tid : TraceId) (n : ℤ) (o : Outcome) (when : Time)
      → Writes S s (S.remember_closed u k tid n o when)
  recall :
      {u : S.State}
      → Writes S s u
      → (k : MediaKey) (now : Time) → Writes S s (S.recall_closed u k now).1

module _ {S : Store} where
  abbrev Changes : Engine S → Engine S → Type 0
  Changes e e' = Writes S e.store e'.store

  request_reason-Changes :
      (ev : Event) (prior : Option ClosedTrace) (e : Engine S) {s : S.State}
      → Writes S s e.store
      → Writes S s (request_reason ev prior e).1.store
  unfolding request_reason
  request_reason-Changes ev none e w = w
  request_reason-Changes ev (some c) e w = recall w ev.key ev.occurred_at

  pub open_request-Changes :
      (B : Builder) (ctx : Context) (ev : Event) (e : Engine S)
      → Changes e (open_request B ctx ev e)
  unfolding open_request start_request install_request
  open_request-Changes B ctx ev e =
      let (prior, s) = S.recall_closed e.store ev.key ev.occurred_at in
      put
        (request_reason-Changes ev prior (record e { store = s })
          (recall here ev.key ev.occurred_at))
        (start_request B ctx ev e).0

  pub approve-Changes :
      (ev : Event) (t : TraceState) (key : MediaKey) (e : Engine S) → Changes e (approve ev t key e)
  unfolding approve
  approve-Changes ev t key e =
      let t' = record t { search_start = ev.occurred_at; updated_at = ev.occurred_at } in
      subst (Writes S e.store)
        (sym
          (update_timing-SameTraces key
            (λ (u : LifecycleTiming). record u { approved_at = ev.occurred_at })
            (State.put t' e)).0)
        (put here t')

  finish-Changes :
      (ev : Event) (t : TraceState) (key : MediaKey) (o : Outcome) (why : String) (e : Engine S)
      {s : S.State}
      → Writes S s e.store
      → Writes S s (finish_timing key t o why ev (forget_trace key t o ev e)).store
  unfolding forget_trace
  finish-Changes ev t key o why e {s} w =
      subst (Writes S s)
        (sym (finish_timing-SameTraces key t o why ev (forget_trace key t o ev e)).0)
        (remember (delete w key) key t.trace_id t.attempt o ev.occurred_at)

  pub close_request-Changes :
      (ev : Event) (t : TraceState) (key : MediaKey) (e : Engine S)
      → Changes e (close_request ev t key e)
  unfolding close_request
  close_request-Changes ev t key e =
      let ctx = context_of e key in
      let p = close_download ctx ev (t, e) in
      let q = close_grab ctx ev p in
      finish-Changes ev q.0 key ev.outcome "" (close_request_root ctx ev q.0 q.1) (
        subst (Writes S e.store)
          (sym (
            (close_request_root-SameTraces ctx ev q.0 q.1).0
            ∙ ((close_grab-SameTraces ctx ev p).0 ∙ (close_download-SameTraces ctx ev (t, e)).0)))
          here)

  pub handle_download_start-Changes :
      (B : Builder) (ctx : Context) (t : TraceState) (key : MediaKey) (ev : Event) (e : Engine S)
      {s : S.State}
      → Writes S s e.store
      → Writes S s (handle_download_start B ctx t key ev e).store
  unfolding handle_download_start open_download
  handle_download_start-Changes B ctx t key ev e {s} w = elim (Bool-cases t.has_download) [
    | inl busy ↦ simp busy w
    | inr free ↦
        let (t', e') = start_download B ctx t ev e in
        simp free (
          subst (Writes S s) (sym (time_download_start-SameTraces key ev (State.put t' e')).0)
            (put (subst (Writes S s) (sym (start_download-SameTraces B ctx t ev e).0) w) t'))
  ]

  pub finish_download-Changes :
      (t : TraceState) (ev : Event) (e : Engine S) → Changes e (finish_download t ev e)
  unfolding finish_download
  finish_download-Changes t ev e =
      let t' = record t { has_download = false; updated_at = ev.occurred_at } in
      let e' = close_transfer (context_of e t.key) t ev e in
      subst (Writes S e.store) (sym (time_download_end-SameTraces t.key ev (State.put t' e')).0) (
        put
          (subst (Writes S e.store) (sym (close_transfer-SameTraces (context_of e t.key) t ev e).0)
            here)
          t')

  replay_download-Changes :
      (B : Builder) (ctx : Context) (t : TraceState) (key : MediaKey) (ev : Event) (e : Engine S)
      {s : S.State}
      → Writes S s e.store
      → Writes S s (replay_download B ctx t key ev e).store
  unfolding replay_download
  replay_download-Changes B ctx t key ev e w =
      elim (Option-cases (Map.get ev.release.download_id e.pending_dl)) [
        | inl none_parked ↦ rw (none_parked, replay_download) w
        | inr (p, parked) ↦
            rw (parked, replay_download)
              (elim (Bool-cases (ev.release.download_id == "")) [
                | inl empty ↦ simp empty w
                | inr named ↦ simp named (
                    handle_download_start-Changes B ctx t key p.event
                      (record e { pending_dl = Map.delete ev.release.download_id e.pending_dl }) w)
              ])
      ]

  pub grab-Changes :
      (B : Builder) (ev : Event) (t : TraceState) (key : MediaKey) (e : Engine S) {s : S.State}
      → Writes S s e.store
      → Writes S s (grab B ev t key e).store
  unfolding grab open_grab
  grab-Changes B ev t key e {s} w =
      let ctx = context_of e key in
      let searched = emit_search ctx ev t e in
      let (free, superseded) = supersede_grab ctx ev t searched in
      let (t', opened) = open_grab B ctx ev free superseded in
      let same =
        (supersede_grab-SameTraces ctx ev t searched).0 ∙ (emit_search-SameTraces ctx ev t e).0 in
      replay_download-Changes B ctx t' key ev (time_grab key ev opened) (
        subst (Writes S s) (sym (time_grab-SameTraces key ev opened).0)
          (put (subst (Writes S s) (sym same) w) t'))

  pub finish_import-Changes :
      (ev : Event) (t : TraceState) (key : MediaKey) (e : Engine S)
      → Changes e (finish_import ev t key e)
  unfolding finish_import close_orphan
  finish_import-Changes ev t key e =
      let ctx = context_of e key in
      let p = close_download ctx ev (t, e) in
      let imported = emit_import ctx ev p.0 p.1 in
      let q = close_grab ctx ev (p.0, imported) in
      let t₃ = record q.0 { updated_at = ev.occurred_at } in
      let timed = time_import key ev (State.put t₃ q.1) in
      let same =
        (close_grab-SameTraces ctx ev (p.0, imported)).0
        ∙ ((emit_import-SameTraces ctx ev p.0 p.1).0
            ∙ (close_download-SameTraces ctx ev (t, e)).0) in
      let stored =
        subst (Writes S e.store) (sym (time_import-SameTraces key ev (State.put t₃ q.1)).0)
          (put (subst (Writes S e.store) (sym same) here) t₃) in
      elim (Bool-cases (is_orphan t₃)) [
        | inr request ↦ rw request stored
        | inl orphan ↦ rw orphan (
            finish-Changes ev t₃ key available Schema.upgrade_manual_search
              (close_orphan_root ctx ev t₃ timed)
              (subst (Writes S e.store) (sym (close_orphan_root-SameTraces ctx ev t₃ timed).0)
                stored))
      ]
