-- ===== src/Spans/Builder/Quiet.antt =====
-- internal/spans/builder.go under internal/correlate/engine.go: what the builder still holds open
-- when the engine has no trace in flight.
use tracearr.Prelude.{
  ℕ, ◌≡◌, Bool, true, false, String, List, ◌∷◌, none, arith, nat_beq, nat_eq, is_some,
}
use tracearr.Prelude.Clock.{Time}
use tracearr.Prelude.Map
use tracearr.Event.{MediaKey}
use tracearr.Store.{Store, KeyLaws, SpanId}
use tracearr.Spans.Schema.{Attr}
use tracearr.Engine.Calls.{Context, Call, Link}
use tracearr.Engine.State.{Engine}
use tracearr.Engine.Runs.{Action, run, Sound, run_quiet}
use tracearr.Engine.OpenSpans.{is_open}
use tracearr.Spans.Builder.{SpanContext, Operation, serve_all, otel_builder}
use tracearr.Spans.Builder.Open.{is_open_root, open_spans-serve_all}

module _ (tracer : List Operation → SpanContext) where
  -- The engine runs on the OpenTelemetry builder from a sound state, over a store that keeps its
  -- promises, whatever events, polls and sweeps come. Where no trace
  -- is left in flight, the builder holds no child span open: all that its map still has are roots.
  pub open_spans-run :
      (to_lower : ℕ → ℕ) {S : Store} (L : KeyLaws S) (actions : List Action) (e : Engine S)
      → Sound (otel_builder tracer) L e
      → ((k : MediaKey) → S.get (run to_lower (otel_builder tracer) actions e).store k ≡ none)
      → (id : SpanId) → nat_beq id 0 ≡ false
      → let after = run to_lower (otel_builder tracer) actions e in
        is_some (Map.get id (serve_all tracer after.calls).open_spans)
        ≡ is_open_root tracer after.calls id
  open_spans-run to_lower L actions e sound quiet id nonzero =
      let after = run to_lower (otel_builder tracer) actions e in
      ground (
        arith,
        open_spans-serve_all tracer after.calls id nonzero,
        run_quiet to_lower (otel_builder tracer) L actions e sound quiet id,
      )

  -- A root that was opened and then closed as the engine closes roots, by the zero id, is still in
  -- the builder's map of open spans.
  pub open_spans-closed_root :
      (cs : List Call) (ctx root : Context) (name kind : String) (at until : Time) (good : Bool)
      (reason : String) (attrs more : List Attr) (links : List Link)
      → let opened = Call.open_root ctx name kind at attrs links ∷ cs in
        let id = (otel_builder tracer).child opened in
        nat_beq id 0 ≡ false
        → is_some (
            Map.get id
              (serve_all tracer
                (Call.close_span root 0 until good reason more ∷ opened)).open_spans)
          ≡ true
  unfolding is_open_root is_open
  open_spans-closed_root cs ctx root name kind at until good reason attrs more links nonzero =
      let opened = Call.open_root ctx name kind at attrs links ∷ cs in
      let id = (otel_builder tracer).child opened in
      ground (
        arith,
        open_spans-serve_all tracer (Call.close_span root 0 until good reason more ∷ opened) id
            nonzero,
      )
