-- ===== src/Engine/OutOfOrder/Parked.antt =====
-- internal/correlate/engine.go: what a grab does with the look-back buffer.
use tracearr.Prelude.{
  ◌≡◌, refl, false, String, [], none, some, arith, ◌∙◌, ap, ◌==◌, string_eq, Bool-cases, inl, inr,
}
use tracearr.Prelude.Map
use tracearr.Prelude.Map.{Map, get-insert}
use tracearr.Event.{MediaKey, Event}
use tracearr.Store.{Store, TraceState}
use tracearr.Engine.Calls.{Context, Builder}
use tracearr.Engine.State.{Engine, PendingDownload, context_of, put}
use tracearr.Engine.Downloads.{
  time_download_start, start_download, open_download, handle_download_start,
}
use tracearr.Engine.Grabs.{emit_search, supersede_grab, open_grab, time_grab, replay_download, grab}
use tracearr.Engine.Records.Grabs.{
  emit_search-SameTraces, supersede_grab-SameTraces, time_grab-SameTraces, ctx_by_key-open_grab,
}

-- The engine with another look-back buffer.
abbrev pub with_parked : {S : Store} → Engine S → Map String PendingDownload → Engine S
with_parked e parked = record e { pending_dl = parked }

-- Up to its look-back buffer, and with an empty one.
abbrev pub without_parked : {S : Store} → Engine S → Engine S
without_parked e = with_parked e []

module _ {S : Store} where
  emit_search-parked :
      (ctx : Context) (ev : Event) (t : TraceState) (e : Engine S) (p : Map String PendingDownload)
      → emit_search ctx ev t (with_parked e p) ≡ with_parked (emit_search ctx ev t e) p
  unfolding emit_search
  emit_search-parked ctx ev t e p = ground arith

  supersede_grab-parked :
      (ctx : Context) (ev : Event) (t : TraceState) (e : Engine S) (p : Map String PendingDownload)
      → supersede_grab ctx ev t (with_parked e p)
        ≡ ((supersede_grab ctx ev t e).0, with_parked (supersede_grab ctx ev t e).1 p)
  unfolding supersede_grab
  supersede_grab-parked ctx ev t e p = ground arith

  time_grab-parked :
      (key : MediaKey) (ev : Event) (e : Engine S) (p : Map String PendingDownload)
      → time_grab key ev (with_parked e p) ≡ with_parked (time_grab key ev e) p
  unfolding time_grab
  time_grab-parked key ev e p = ground arith

  time_download_start-parked :
      (key : MediaKey) (ev : Event) (e : Engine S) (p : Map String PendingDownload)
      → time_download_start key ev (with_parked e p) ≡ with_parked (time_download_start key ev e) p
  unfolding time_download_start
  time_download_start-parked key ev e p = ground arith

module _ (B : Builder) {S : Store} where
  open_grab-parked :
      (ctx : Context) (ev : Event) (t : TraceState) (e : Engine S) (p : Map String PendingDownload)
      → open_grab B ctx ev t (with_parked e p)
        ≡ ((open_grab B ctx ev t e).0, with_parked (open_grab B ctx ev t e).1 p)
  unfolding open_grab
  open_grab-parked ctx ev t e p = refl

  pub store-open_grab :
      (ctx : Context) (ev : Event) (t : TraceState) (e : Engine S)
      → (open_grab B ctx ev t e).1.store ≡ S.put e.store (open_grab B ctx ev t e).0
  unfolding open_grab
  store-open_grab ctx ev t e = refl

  pub handle_download_start-parked :
      (ctx : Context) (t : TraceState) (key : MediaKey) (ev : Event) (e : Engine S)
      (p : Map String PendingDownload)
      → handle_download_start B ctx t key ev (with_parked e p)
        ≡ with_parked (handle_download_start B ctx t key ev e) p
  unfolding handle_download_start open_download start_download
  handle_download_start-parked ctx t key ev e p = elim (Bool-cases t.has_download) [
    | inl busy ↦ simp busy
    | inr free ↦ simp free (
        let (t', e') = start_download B ctx t ev e in
        time_download_start-parked key ev (put t' e') p)
  ]

  pub pending-handle_download_start :
      (ctx : Context) (t : TraceState) (key : MediaKey) (ev : Event) (e : Engine S)
      → (handle_download_start B ctx t key ev e).pending_dl ≡ e.pending_dl
  pending-handle_download_start ctx t key ev e =
      ap (λ (r : Engine S). r.pending_dl) (handle_download_start-parked ctx t key ev e e.pending_dl)

  -- The grab up to its replay.
  unfoldable pub grabbed_core : Event → TraceState → MediaKey → Engine S → TraceState × Engine S
  grabbed_core ev t key e =
      let ctx = context_of e key in
      let (free, superseded) = supersede_grab ctx ev t (emit_search ctx ev t e) in
      let (t', opened) = open_grab B ctx ev free superseded in (t', time_grab key ev opened)

  pub grabbed_core-parked :
      (ev : Event) (t : TraceState) (key : MediaKey) (e : Engine S) (p : Map String PendingDownload)
      → grabbed_core ev t key (with_parked e p)
        ≡ ((grabbed_core ev t key e).0, with_parked (grabbed_core ev t key e).1 p)
  unfolding grabbed_core context_of
  grabbed_core-parked ev t key e p =
      let ctx = context_of e key in
      let searched = emit_search ctx ev t e in
      let (free, superseded) = supersede_grab ctx ev t searched in
      let opened = (open_grab B ctx ev free superseded).1 in
      simp (
        emit_search-parked ctx ev t e p,
        supersede_grab-parked ctx ev t searched p,
        open_grab-parked ctx ev free superseded p,
        time_grab-parked key ev opened p,
      )

  grab-core :
      (ev : Event) (t : TraceState) (key : MediaKey) (e : Engine S)
      → grab B ev t key e ≡ (
          let (t', timed) = grabbed_core ev t key e in
          replay_download B (context_of e key) t' key ev timed)
  unfolding grab grabbed_core
  grab-core ev t key e = refl

  -- Nothing up to the replay touches the buffer.
  pub pending-grabbed_core :
      (ev : Event) (t : TraceState) (key : MediaKey) (e : Engine S)
      → (grabbed_core ev t key e).1.pending_dl ≡ e.pending_dl
  pending-grabbed_core ev t key e =
      ap (λ (r : TraceState × Engine S). r.1.pending_dl)
        (grabbed_core-parked ev t key e e.pending_dl)

  pub ctx_by_key-grabbed_core :
      (ev : Event) (t : TraceState) (key : MediaKey) (e : Engine S)
      → (grabbed_core ev t key e).1.ctx_by_key ≡ e.ctx_by_key
  unfolding grabbed_core
  ctx_by_key-grabbed_core ev t key e =
      let ctx = context_of e key in
      let searched = emit_search ctx ev t e in
      let (free, superseded) = supersede_grab ctx ev t searched in
      (time_grab-SameTraces key ev (open_grab B ctx ev free superseded).1).1
      ∙ (ctx_by_key-open_grab B ctx ev free superseded
          ∙ ((supersede_grab-SameTraces ctx ev t searched).1
              ∙ (emit_search-SameTraces ctx ev t e).1))

  -- A grab with no download that waits for it.
  pub grab_unawaited :
      (ev : Event) (t : TraceState) (key : MediaKey) (e : Engine S)
      → Map.get ev.release.download_id e.pending_dl ≡ none
      → grab B ev t key e ≡ (grabbed_core ev t key e).1
  unfolding replay_download
  grab_unawaited ev t key e none_parked =
      grab-core ev t key e ∙ rw (pending-grabbed_core ev t key e, none_parked, replay_download)

  -- A grab whose download waits for it.
  pub grab_awaited :
      (ev : Event) (t : TraceState) (key : MediaKey) (e : Engine S) (p : PendingDownload)
      → (ev.release.download_id == "") ≡ false
      → Map.get ev.release.download_id e.pending_dl ≡ some p
      → grab B ev t key e ≡ (
          let (t', timed) = grabbed_core ev t key e in
          handle_download_start B
            (context_of e key)
            t'
            key
            p.event
            (with_parked timed (Map.delete ev.release.download_id e.pending_dl)))
  unfolding replay_download
  grab_awaited ev t key e p named parked =
      grab-core ev t key e
      ∙ rw (pending-grabbed_core ev t key e, parked, replay_download)
          (rw (named, pending-grabbed_core ev t key e))
