-- ===== src/Engine/Process.antt =====
-- internal/correlate/engine.go: `Process`, the entry of every event.
use tracearr.Prelude.{List, [], ◌∷◌, if◌then◌else◌}
use tracearr.Event.{
  Event, Phase, request_opened, request_approved, request_closed, grabbed, download_start,
  download_done, imported, manual_needed, unknown,
}
use tracearr.Store.{Store}
use tracearr.Engine.Calls.{Context, Builder}
use tracearr.Engine.State.{Engine}
use tracearr.Engine.Requests.{on_request_opened, on_request_approved, on_request_closed}
use tracearr.Engine.Grabs.{on_grabbed}
use tracearr.Engine.Downloads.{on_download_start, on_download_done}
use tracearr.Engine.Imports.{on_imported, on_manual_needed}

module _ {S : Store} (B : Builder) where
  unfoldable pub dispatch : Phase → Context → Event → Engine S → Engine S
  dispatch request_opened ctx ev e = on_request_opened B ctx ev e
  dispatch request_approved ctx ev e = on_request_approved ev e
  dispatch request_closed ctx ev e = on_request_closed ev e
  dispatch grabbed ctx ev e = on_grabbed B ctx ev e
  dispatch download_start ctx ev e = on_download_start B ev e
  dispatch download_done ctx ev e = on_download_done ev e
  dispatch imported ctx ev e = on_imported ev e
  dispatch manual_needed ctx ev e = on_manual_needed ev e
  dispatch (unknown _) ctx ev e = e

  unfoldable pub process : Context → Event → Engine S → Engine S
  process ctx ev e =
      let (fresh, s) = S.seen_event e.store ev.source ev.event_id ev.occurred_at in
      let e' = record e { store = s } in if fresh then dispatch ev.phase ctx ev e' else e'

  -- The events of one delivery, in order.
  unfoldable pub process_all : Context → List Event → Engine S → Engine S
  process_all ctx [] e = e
  process_all ctx (ev ∷ rest) e = process_all ctx rest (process ctx ev e)
