-- ===== src/Engine/NoLeak/Grabs.antt =====
-- `onGrabbed` leaves no child span behind: a grab that is replaced is closed.
use tracearr.Prelude.{
  ◌≡◌, refl, true, false, none, some, arith, Option-cases, Bool-cases, inl, inr, ◌==◌, string_eq,
  beq_refl,
}
use tracearr.Prelude.Map
use tracearr.Event.{MediaKey, key_eq, Event}
use tracearr.Store.{Store, KeyLaws, TraceState, SpanId}
use tracearr.Engine.Calls.{Context, Builder}
use tracearr.Engine.State.{Engine, context_of, resolve_trace}
use tracearr.Engine.Grabs.{
  open_orphan_root, emit_search, supersede_grab, open_grab, time_grab, replay_download, grab,
  grab_orphan, on_grabbed,
}
use tracearr.Engine.OpenSpans.{is_open, is_loose, NoLeak, NoLeak-replace, NoLeak-same}
use tracearr.Engine.Records.Resolve.{resolve_trace_own, resolve_trace_missing}
use tracearr.Engine.Records.Grabs.{
  get-open_grab, get-open_orphan_root, open_orphan_root-fields, open_grab-fields,
  supersede_grab-state, supersede_grab-SameTraces, emit_search-SameTraces, time_grab-SameTraces,
}
use tracearr.Engine.NoLeak.Downloads.{handle_download_start-NoLeak}

module _ {S : Store} where
  calls-time_grab :
      (key : MediaKey) (ev : Event) (e : Engine S) → (time_grab key ev e).calls ≡ e.calls
  unfolding time_grab
  calls-time_grab key ev e = ground arith

module _ (B : Builder) {S : Store} where
  emit_search-loose :
      (ctx : Context) (ev : Event) (t : TraceState) (e : Engine S) (id : SpanId)
      → is_loose B (emit_search ctx ev t e).calls (some t) id ≡ true
      → is_loose B e.calls (some t) id ≡ true
  unfolding emit_search is_loose is_open
  emit_search-loose ctx ev t e id = ground arith

  supersede_grab-loose :
      (ctx : Context) (ev : Event) (t : TraceState) (e : Engine S) (id : SpanId)
      → is_loose B (supersede_grab ctx ev t e).1.calls (some (supersede_grab ctx ev t e).0) id
        ≡ true
      → is_loose B e.calls (some t) id ≡ true
  unfolding supersede_grab is_loose is_open
  supersede_grab-loose ctx ev t e id = ground arith

  open_grab-loose :
      (ctx : Context) (ev : Event) (t : TraceState) (e : Engine S) (id : SpanId)
      → t.has_grab ≡ false
      → is_loose B (open_grab B ctx ev t e).1.calls (some (open_grab B ctx ev t e).0) id ≡ true
      → is_loose B e.calls (some t) id ≡ true
  unfolding open_grab is_loose is_open
  open_grab-loose ctx ev t e id free = ground arith

  open_orphan_root-open :
      (ctx : Context) (ev : Event) (e : Engine S) (id : SpanId)
      → is_open B (open_orphan_root B ctx ev e).1.calls id ≡ is_open B e.calls id
  unfolding open_orphan_root is_open
  open_orphan_root-open ctx ev e id = refl

module _ (B : Builder) {S : Store} (L : KeyLaws S) where
  open L use {Wf}

  replay_download-NoLeak :
      (ctx : Context) (t : TraceState) (key : MediaKey) (ev : Event) (e : Engine S)
      → S.get e.store t.key ≡ some t
      → NoLeak B e
      → NoLeak B (replay_download B ctx t key ev e)
  unfolding replay_download
  replay_download-NoLeak ctx t key ev e there h =
      elim (Option-cases (Map.get ev.release.download_id e.pending_dl)) [
        | inl none_parked ↦ rw (none_parked, replay_download) h
        | inr (p, parked) ↦
            rw (parked, replay_download)
              (elim (Bool-cases (ev.release.download_id == "")) [
                | inl empty ↦ simp empty h
                | inr named ↦ simp named (
                    handle_download_start-NoLeak B L ctx t key p.event
                      (record e { pending_dl = Map.delete ev.release.download_id e.pending_dl })
                      there h)
              ])
      ]

  -- The search, the superseded grab and the new one, up to the record's `put`.
  open_grab-NoLeak :
      (ctx : Context) (ev : Event) (t : TraceState) (e : Engine S)
      → S.get e.store t.key ≡ some t
      → NoLeak B e
      → let (free, superseded) = supersede_grab ctx ev t (emit_search ctx ev t e) in
        NoLeak B (open_grab B ctx ev free superseded).1
  open_grab-NoLeak ctx ev t e there h =
      let searched = emit_search ctx ev t e in
      let (free, superseded) = supersede_grab ctx ev t searched in
      NoLeak-replace B e (open_grab B ctx ev free superseded).1 t.key (some t)
        (some (open_grab B ctx ev free superseded).0) there
        (λ j. ground (
          arith,
          get-open_grab L B ctx ev free superseded j,
          supersede_grab-state ctx ev t searched,
          supersede_grab-SameTraces ctx ev t searched,
          emit_search-SameTraces ctx ev t e,
        ))
        (λ id loose. emit_search-loose B ctx ev t e id (
          supersede_grab-loose B ctx ev t searched id (
            open_grab-loose B ctx ev free superseded id
              (ground (arith, supersede_grab-state ctx ev t searched)) loose)))
        h

  grab-NoLeak :
      (ev : Event) (t : TraceState) (key : MediaKey) (e : Engine S)
      → S.get e.store t.key ≡ some t
      → NoLeak B e
      → NoLeak B (grab B ev t key e)
  unfolding grab
  grab-NoLeak ev t key e there h =
      let ctx = context_of e key in
      let (free, superseded) = supersede_grab ctx ev t (emit_search ctx ev t e) in
      let (t', opened) = open_grab B ctx ev free superseded in
      let timed = time_grab key ev opened in
      replay_download-NoLeak ctx t' key ev timed
        (rw (time_grab-SameTraces key ev opened).0 (
          ground (
            arith,
            get-open_grab L B ctx ev free superseded t'.key,
            open_grab-fields B ctx ev free superseded,
            beq_refl t'.key,
          )))
        (NoLeak-same B opened timed (calls-time_grab key ev opened)
          (time_grab-SameTraces key ev opened).0 (open_grab-NoLeak ctx ev t e there h))

  grab_orphan-NoLeak :
      (ctx : Context) (ev : Event) (e : Engine S)
      → S.get e.store ev.key ≡ none
      → NoLeak B e
      → NoLeak B (grab_orphan B ctx ev e)
  unfolding grab_orphan is_loose
  grab_orphan-NoLeak ctx ev e absent h =
      let (t, opened) = open_orphan_root B ctx ev e in
      grab-NoLeak ev t ev.key opened
        (ground (
          arith,
          get-open_orphan_root L B ctx ev e t.key,
          open_orphan_root-fields B ctx ev e,
          beq_refl ev.key,
        ))
        (NoLeak-replace B e opened ev.key none (some t) absent (get-open_orphan_root L B ctx ev e)
          (λ id loose. ground (arith, open_orphan_root-open B ctx ev e id)) h)

  pub on_grabbed-NoLeak :
      (ctx : Context) (ev : Event) (e : Engine S)
      → Wf e.store
      → NoLeak B e
      → NoLeak B (on_grabbed B ctx ev e)
  unfolding on_grabbed
  on_grabbed-NoLeak ctx ev e wf h = elim (Option-cases (resolve_trace e ev.key)) [
    | inl missing ↦
        rw (missing, on_grabbed)
          (grab_orphan-NoLeak ctx ev e (resolve_trace_missing e ev.key missing) h)
    | inr ((t, key), found) ↦
        rw (found, on_grabbed) (grab-NoLeak ev t key e (resolve_trace_own L e ev.key wf found) h)
  ]
