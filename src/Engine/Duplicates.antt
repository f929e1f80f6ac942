-- ===== src/Engine/Duplicates.antt =====
-- internal/correlate/engine.go: an event that is delivered twice is processed once.
use tracearr.Prelude.{◌≡◌, true, false, ◌==◌, string_eq, arith, Bool-cases, inl, inr, ◌∙◌}
use tracearr.Event.{Event}
use tracearr.Store.{Store, SeenLaws}
use tracearr.Engine.Calls.{Context, Builder}
use tracearr.Engine.State.{Engine}
use tracearr.Engine.Process.{process}
use tracearr.Engine.Writes.{dispatch-Writes, seen-Writes}

module _ (B : Builder) {S : Store} where
  duplicate_dropped :
      (ctx : Context) (ev : Event) (e : Engine S)
      → (S.seen_event e.store ev.source ev.event_id ev.occurred_at).0 ≡ false
      → process B ctx ev e
        ≡ record e { store = (S.seen_event e.store ev.source ev.event_id ev.occurred_at).1 }
  unfolding process
  duplicate_dropped ctx ev e duplicate = rw duplicate

module _ (B : Builder) {S : Store} (L : SeenLaws S) where
  open L use {seen, seen_event_new, seen-seen_event}

  -- Once processed, an event with an id is remembered.
  seen-process :
      (ctx : Context) (ev : Event) (e : Engine S)
      → (ev.event_id == "") ≡ false
      → seen (process B ctx ev e).store ev.source ev.event_id ev.occurred_at ≡ true
  unfolding process
  seen-process ctx ev e named =
      let (fresh, s) = S.seen_event e.store ev.source ev.event_id ev.occurred_at in
      let noted : seen s ev.source ev.event_id ev.occurred_at ≡ true =
        seen-seen_event e.store ev.source ev.event_id ev.occurred_at named in
      elim (Bool-cases fresh) [
        | inr duplicate ↦ rw duplicate noted
        | inl first ↦ rw first (
            seen-Writes L ev.source ev.event_id ev.occurred_at
              (dispatch-Writes B ev.phase ctx ev (record e { store = s }))
            ∙ noted)
      ]

  -- Over a store that keeps the promises about duplicates, an event whose id is not empty,
  -- delivered a second time with the same time, changes nothing but the store's deduplication: no
  -- call of the builder, no metric, no context, no timing, no parked download.
  pub process_twice :
      (ctx ctx' : Context) (ev : Event) (e : Engine S)
      → (ev.event_id == "") ≡ false
      → let once = process B ctx ev e in
        process B ctx' ev once
        ≡ record once { store = (S.seen_event once.store ev.source ev.event_id ev.occurred_at).1 }
  process_twice ctx ctx' ev e named =
      let once = process B ctx ev e in
      let again : (S.seen_event once.store ev.source ev.event_id ev.occurred_at).0 ≡ false =
        ground (
          arith,
          seen_event_new once.store ev.source ev.event_id ev.occurred_at,
          seen-process ctx ev e named,
        ) in
      duplicate_dropped B ctx' ev once again
