-- ===== src/Engine/Gauges/Rises.antt =====
-- internal/correlate/engine.go: what a grab adds to the gauge of open grabs.
use tracearr.Prelude.{
  ℕ, suc, ◌+◌, ◌≡◌, List, [], ◌∷◌, some, arith, Option-cases, Bool-cases, inl, inr, ◌==◌, string_eq,
  ◌∙◌, ap,
}
use tracearr.Prelude.Int.{pos}
use tracearr.Prelude.Map
use tracearr.Event.{MediaKey, key_eq, Event}
use tracearr.Store.{Store, TraceState}
use tracearr.Engine.Calls.{Context, Builder, Metric, Gauge, adjust_in_flight}
use tracearr.Engine.State.{LifecycleTiming, Engine, context_of}
use tracearr.Engine.Downloads.{
  time_download_start, start_download, open_download, handle_download_start,
}
use tracearr.Engine.Grabs.{emit_search, supersede_grab, open_grab, time_grab, replay_download, grab}
use tracearr.Engine.Gauges.{grab-free, open_grab-metrics}

-- By how much it was raised.
unfoldable pub grab_rises : List Metric → ℕ
grab_rises [] = 0
grab_rises (adjust_in_flight Gauge.grab (pos n) ∷ ms) = n + grab_rises ms
grab_rises (m ∷ ms) = grab_rises ms

module _ {S : Store} where
  handle_download_start-rises :
      (B : Builder) (ctx : Context) (t : TraceState) (key : MediaKey) (ev : Event) (e : Engine S)
      → grab_rises (handle_download_start B ctx t key ev e).metrics ≡ grab_rises e.metrics
  unfolding handle_download_start open_download start_download time_download_start grab_rises
  handle_download_start-rises B ctx t key ev e = ground arith

  replay_download-rises :
      (B : Builder) (ctx : Context) (t : TraceState) (key : MediaKey) (ev : Event) (e : Engine S)
      → grab_rises (replay_download B ctx t key ev e).metrics ≡ grab_rises e.metrics
  unfolding replay_download
  replay_download-rises B ctx t key ev e =
      elim (Option-cases (Map.get ev.release.download_id e.pending_dl)) [
        | inl absent ↦ rw (absent, replay_download)
        | inr (parked, there) ↦
            rw (there, replay_download)
              (elim (Bool-cases (ev.release.download_id == "")) [
                | inl no_id ↦ rw (no_id)
                | inr an_id ↦ rw (an_id) (
                    handle_download_start-rises B ctx t key parked.event
                      (record e { pending_dl = Map.delete ev.release.download_id e.pending_dl }))
              ])
      ]

  time_grab-rises :
      (key : MediaKey) (ev : Event) (e : Engine S) (l : LifecycleTiming)
      → Map.get key e.timing ≡ some l
      → grab_rises (time_grab key ev e).metrics ≡ suc (grab_rises e.metrics)
  unfolding time_grab grab_rises
  time_grab-rises key ev e l timed = ground (arith, timed)

  timing-opened :
      (B : Builder) (ctx : Context) (ev : Event) (t : TraceState) (e : Engine S)
      → let free = supersede_grab ctx ev t (emit_search ctx ev t e) in
        (open_grab B ctx ev free.0 free.1).1.timing ≡ e.timing
  unfolding supersede_grab emit_search open_grab
  timing-opened B ctx ev t e = ground arith

  -- A grab of a trace with a timing raises the gauge by one.
  pub grab-rises :
      (B : Builder) (ev : Event) (t : TraceState) (key : MediaKey) (e : Engine S)
      (l : LifecycleTiming)
      → Map.get key e.timing ≡ some l
      → grab_rises (grab B ev t key e).metrics ≡ suc (grab_rises e.metrics)
  unfolding grab
  grab-rises B ev t key e l timed =
      let ctx = context_of e key in
      let free = supersede_grab ctx ev t (emit_search ctx ev t e) in
      let opened = open_grab B ctx ev free.0 free.1 in
      replay_download-rises B ctx opened.0 key ev (time_grab key ev opened.1)
      ∙ time_grab-rises key ev opened.1 l (ap (Map.get key) (timing-opened B ctx ev t e) ∙ timed)
      ∙ ap (λ (ms : List Metric). suc (grab_rises ms))
          (open_grab-metrics B ctx ev free.0 free.1 ∙ grab-free ctx ev t e)
