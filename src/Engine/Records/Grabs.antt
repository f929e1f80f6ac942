-- ===== src/Engine/Records/Grabs.antt =====
-- What `onGrabbed` does to the records.
use tracearr.Prelude.{◌≡◌, refl, true, false, some, ◌==◌, string_eq, if◌then◌else◌, arith}
use tracearr.Event.{MediaKey, key_beq, Event}
use tracearr.Store.{Store, KeyLaws, TraceState}
use tracearr.Engine.Calls.{Context, Builder}
use tracearr.Engine.State.{Engine}
use tracearr.Engine.Grabs.{open_orphan_root, emit_search, supersede_grab, open_grab, time_grab}
use tracearr.Engine.Records.Requests.{SameTraces}

module _ {S : Store} where
  pub emit_search-SameTraces :
      (ctx : Context) (ev : Event) (t : TraceState) (e : Engine S)
      → SameTraces e (emit_search ctx ev t e)
  unfolding emit_search
  emit_search-SameTraces ctx ev t e = ground arith

  pub supersede_grab-SameTraces :
      (ctx : Context) (ev : Event) (t : TraceState) (e : Engine S)
      → SameTraces e (supersede_grab ctx ev t e).1
  unfolding supersede_grab
  supersede_grab-SameTraces ctx ev t e = ground arith

  pub supersede_grab-state :
      (ctx : Context) (ev : Event) (t : TraceState) (e : Engine S)
      → (supersede_grab ctx ev t e).0 ≡ record t { has_grab = false }
  unfolding supersede_grab
  supersede_grab-state ctx ev t e = ground arith

  pub time_grab-SameTraces :
      (key : MediaKey) (ev : Event) (e : Engine S) → SameTraces e (time_grab key ev e)
  unfolding time_grab
  time_grab-SameTraces key ev e = ground arith

  pub open_orphan_root-fields :
      (B : Builder) (ctx : Context) (ev : Event) (e : Engine S)
      → let t = (open_orphan_root B ctx ev e).0 in
        (t.key ≡ ev.key) × (t.has_grab ≡ false) × (t.has_download ≡ false)
  unfolding open_orphan_root
  open_orphan_root-fields B ctx ev e = (refl, refl, refl)

  pub open_grab-fields :
      (B : Builder) (ctx : Context) (ev : Event) (t : TraceState) (e : Engine S)
      → let t' = (open_grab B ctx ev t e).0 in
        (t'.key ≡ t.key)
        × (t'.has_grab ≡ true)
        × (t'.has_download ≡ t.has_download)
        × (t'.download_id
            ≡ (if ev.release.download_id == "" then t.download_id else ev.release.download_id))
  unfolding open_grab
  open_grab-fields B ctx ev t e = (refl, refl, refl, refl)

  pub ctx_by_key-open_grab :
      (B : Builder) (ctx : Context) (ev : Event) (t : TraceState) (e : Engine S)
      → (open_grab B ctx ev t e).1.ctx_by_key ≡ e.ctx_by_key
  unfolding open_grab
  ctx_by_key-open_grab B ctx ev t e = refl

module _ {S : Store} (L : KeyLaws S) where
  open L use {get-put, get-recall_closed}

  pub get-open_grab :
      (B : Builder) (ctx : Context) (ev : Event) (t : TraceState) (e : Engine S) (j : MediaKey)
      → S.get (open_grab B ctx ev t e).1.store j
        ≡ (if key_beq t.key j then some (open_grab B ctx ev t e).0 else S.get e.store j)
  unfolding open_grab
  get-open_grab B ctx ev t e j = get-put e.store (open_grab B ctx ev t e).0 j

  pub get-open_orphan_root :
      (B : Builder) (ctx : Context) (ev : Event) (e : Engine S) (j : MediaKey)
      → S.get (open_orphan_root B ctx ev e).1.store j
        ≡ (if key_beq ev.key j then some (open_orphan_root B ctx ev e).0 else S.get e.store j)
  unfolding open_orphan_root
  get-open_orphan_root B ctx ev e j = rw (
    get-put (S.recall_closed e.store ev.key ev.occurred_at).1 (open_orphan_root B ctx ev e).0 j,
    get-recall_closed e.store ev.key ev.occurred_at j,
  )
