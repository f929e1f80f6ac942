-- ===== src/Engine/Calls.antt =====
-- internal/correlate/engine.go: the interfaces `Builder` and `MetricSink`, as the calls that the
-- engine makes of them. Nothing of a sink comes back. A builder answers two calls; its answers are a
-- function of all the calls made so far, which covers every builder that is deterministic.
use tracearr.Prelude.{Bool, String, List}
use tracearr.Prelude.Int.{ℤ}
use tracearr.Prelude.Clock.{Time}
use tracearr.Store.{TraceId, SpanId}
use tracearr.Spans.Schema.{Attr}

-- context.Context, as far as spans go: the nil interface, a context with no span, one that carries a
-- span of this process, and one that carries the span context of an earlier process.
pub data Context : Type 0 where
  nil todo : Context
  live remote : TraceId → SpanId → Context

-- trace.Link to a trace, with no span id
pub record Link : Type 0 where
  pub trace_id : TraceId
  pub attrs : List Attr

pub data Call : Type 0 where
  open_root : Context → String → String → Time → List Attr → List Link → Call
  open_child : Context → String → String → Time → List Attr → Call
  close_span : Context → SpanId → Time → Bool → String → List Attr → Call
  synthetic_span : Context → String → String → Time → Time → List Attr → Call
  add_span_event : Context → SpanId → String → Time → List Attr → Call

-- `calls` is newest first, and its head is the call to answer.
pub record Builder : Type 0 where
  pub root : List Call → Context × TraceId × SpanId
  pub child : List Call → SpanId

pub data Gauge : Type 0 where
  request grab download : Gauge

pub data Metric : Type 0 where
  observe_request : String → String → String → ℤ → Metric
  observe_grab : String → String → ℤ → Metric
  observe_download : String → String → ℤ → Metric
  observe_import : String → ℤ → Metric
  count_attempt : String → String → String → Metric
  adjust_in_flight : Gauge → ℤ → Metric
