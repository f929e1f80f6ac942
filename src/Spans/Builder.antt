-- ===== src/Spans/Builder.antt =====
-- internal/spans/builder.go: `OTelBuilder`. The OpenTelemetry SDK is a parameter: `tracer` gives the
-- span context of the span that the newest operation starts. What the builder asks of the SDK is
-- kept, newest first. Each method's access to the map of open spans holds the mutex; the engine's
-- own mutex makes a method one step.
pub mod Open
pub mod Quiet
use tracearr.Prelude.{
  ℕ, Bool, true, false, not, ◌&&◌, String, List, [], ◌∷◌, ◌++◌, Option, none, some, ◌==◌, string_eq,
  if◌then◌else◌, nat_beq, nat_eq,
}
use tracearr.Prelude.Lists.{is_empty}
use tracearr.Prelude.Clock.{Time}
use tracearr.Prelude.Map
use tracearr.Prelude.Map.{Map}
use tracearr.Store.{TraceId, SpanId}
use tracearr.Spans.Schema.{Attr, text}
use tracearr.Engine.Calls.{Context, Link, Call, Builder}

pub data SpanKind : Type 0 where
  server client internal producer consumer unspecified : SpanKind

unfoldable pub to_span_kind : String → SpanKind
to_span_kind s =
    if s == "SERVER"
    then server
    else if s == "CLIENT"
    then client
    else if s == "INTERNAL"
    then internal
    else if s == "PRODUCER"
    then producer
    else if s == "CONSUMER"
    then consumer
    else unspecified

pub record SpanContext : Type 0 where
  pub trace_id : TraceId
  pub span_id : SpanId

-- sc.IsValid()
abbrev pub is_valid : SpanContext → Bool
is_valid sc = not (nat_beq sc.trace_id 0) && not (nat_beq sc.span_id 0)

-- trace.Span: one of this process, one that stands for a span elsewhere, and one that stands for
-- none.
pub data Span : Type 0 where
  recording non_recording : SpanContext → Span
  noop : Span

unfoldable pub span_context : Span → SpanContext
span_context (recording sc) = sc
span_context (non_recording sc) = sc
span_context noop = record { trace_id = 0; span_id = 0 }

-- trace.SpanFromContext
unfoldable pub span_from_context : Context → Span
span_from_context Context.nil = noop
span_from_context Context.todo = noop
span_from_context (Context.live tid sid) = recording (record { trace_id = tid; span_id = sid })
span_from_context (Context.remote tid sid) =
    non_recording (record { trace_id = tid; span_id = sid })

pub data StatusCode : Type 0 where
  error ok : StatusCode

-- the calls of the SDK; `start` has the options, the last of them WithNewRoot
pub data Operation : Type 0 where
  start : Context → String → SpanKind → Time → List Attr → List Link → Bool → Operation
  set_attributes : Span → List Attr → Operation
  set_status : Span → StatusCode → String → Operation
  end : Span → Time → Operation
  add_event : Span → String → Time → List Attr → Operation

pub record OtelBuilder : Type 0 where
  pub open_spans : Map SpanId Span
  pub operations : List Operation

abbrev pub new : OtelBuilder
new = record { open_spans = []; operations = [] }

unfoldable pub perform : Operation → OtelBuilder → OtelBuilder
perform op b = record b { operations = op ∷ b.operations }

module _ (tracer : List Operation → SpanContext) where
  -- The span just started is kept open.
  unfoldable pub keep_open : OtelBuilder → SpanContext × OtelBuilder
  keep_open b =
      let sc = tracer b.operations in
      (sc, record b { open_spans = Map.insert sc.span_id (recording sc) b.open_spans })

  unfoldable pub open_root :
      Context
      → String
      → String
      → Time
      → List Attr
      → List Link
      → OtelBuilder
      → (Context × TraceId × SpanId) × OtelBuilder
  unfolding perform keep_open
  open_root ctx name kind at attrs links b =
      let (sc, b') =
        keep_open (perform (start ctx name (to_span_kind kind) at attrs links true) b) in
      ((Context.live sc.trace_id sc.span_id, sc.trace_id, sc.span_id), b')

  unfoldable pub open_child :
      Context → String → String → Time → List Attr → OtelBuilder → SpanId × OtelBuilder
  unfolding perform keep_open
  open_child ctx name kind at attrs b =
      let (sc, b') = keep_open (perform (start ctx name (to_span_kind kind) at attrs [] false) b) in
      (sc.span_id, b')

  -- The span is ended as the SDK is asked to: status, error type, end.
  unfoldable pub end_span : Span → Time → Bool → String → List Attr → OtelBuilder → OtelBuilder
  unfolding perform
  end_span sp at good reason attrs b =
      let b₁ = if is_empty attrs then b else perform (set_attributes sp attrs) b in
      let failed = perform (set_status sp error reason) b₁ in
      let b₂ =
        if good
        then perform (set_status sp ok "") b₁
        else if reason == ""
        then failed
        else perform (set_attributes sp (("error.type", text reason) ∷ [])) failed in
      perform (end sp at) b₂

  -- The span of an id, or that of the context for the zero id.
  unfoldable pub find_span : Context → SpanId → OtelBuilder → Option Span
  unfolding span_from_context
  find_span ctx id b =
      if nat_beq id 0 then some (span_from_context ctx) else Map.get id b.open_spans

  unfoldable pub close_span :
      Context → SpanId → Time → Bool → String → List Attr → OtelBuilder → OtelBuilder
  close_span ctx id at good reason attrs b =
      let b' = if nat_beq id 0 then b else record b { open_spans = Map.delete id b.open_spans } in
      elim (find_span ctx id b) [
        | none ↦ b'
        | some sp ↦ if is_valid (span_context sp) then end_span sp at good reason attrs b' else b'
      ]

  -- Started and ended at once; a nil context stands for a new root.
  unfoldable pub synthetic_span :
      Context → String → String → Time → Time → List Attr → OtelBuilder → OtelBuilder
  unfolding perform
  synthetic_span ctx name kind at until attrs b =
      let no_parent : Bool = elim ctx [ Context.nil ↦ true | _ ↦ false ] in
      let parent : Context = elim ctx [ Context.nil ↦ Context.todo | c ↦ c ] in
      let b' = perform (start parent name (to_span_kind kind) at attrs [] no_parent) b in
      perform (end (recording (tracer b'.operations)) until) b'

  unfoldable pub add_span_event :
      Context → SpanId → String → Time → List Attr → OtelBuilder → OtelBuilder
  unfolding perform
  add_span_event ctx id name at attrs b = elim (find_span ctx id b) [
    | none ↦ b
    | some sp ↦ if is_valid (span_context sp) then perform (add_event sp name at attrs) b else b
  ]

  -- A call of the engine.
  unfoldable pub serve : Call → OtelBuilder → OtelBuilder
  serve (Call.open_root ctx name kind at attrs links) b =
      (open_root ctx name kind at attrs links b).1
  serve (Call.open_child ctx name kind at attrs) b = (open_child ctx name kind at attrs b).1
  serve (Call.close_span ctx id at good reason attrs) b = close_span ctx id at good reason attrs b
  serve (Call.synthetic_span ctx name kind at until attrs) b =
      synthetic_span ctx name kind at until attrs b
  serve (Call.add_span_event ctx id name at attrs) b = add_span_event ctx id name at attrs b

  -- All the calls of the engine, the newest first.
  unfoldable pub serve_all : List Call → OtelBuilder
  serve_all [] = new
  serve_all (c ∷ cs) = serve c (serve_all cs)

  -- What the engine is answered when the newest call opens a span.
  abbrev pub otel_builder : Builder
  otel_builder = record {
    root = λ calls.
        let sc = tracer (serve_all calls).operations in
        (Context.live sc.trace_id sc.span_id, sc.trace_id, sc.span_id);
    child = λ calls. (tracer (serve_all calls).operations).span_id;
  }
