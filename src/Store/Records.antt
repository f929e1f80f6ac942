-- ===== src/Store/Records.antt =====
-- internal/correlate/store.go: `TraceState` and `ClosedTrace`.
use tracearr.Prelude.{ℕ, Bool, String}
use tracearr.Prelude.Int.{ℤ}
use tracearr.Prelude.Clock.{Time}
use tracearr.Event.{MediaKey, Source, Outcome}

-- [16]byte and [8]byte, as numbers
abbrev pub TraceId : Type 0
TraceId = ℕ

abbrev pub SpanId : Type 0
SpanId = ℕ

pub record TraceState : Type 0 where
  pub key : MediaKey
  pub trace_id : TraceId
  pub root_span_id : SpanId
  pub attempt : ℤ
  pub source : Source
  pub opened_at : Time
  pub updated_at : Time
  pub grab_span_id : SpanId
  pub has_grab : Bool
  pub download_span_id : SpanId
  pub has_download : Bool
  pub search_start : Time
  pub download_started_at : Time
  pub download_id : String
  pub last_error : String
  pub title : String
  pub request_id : String
  pub requested_by : String
  pub resumed : Bool

pub record ClosedTrace : Type 0 where
  pub trace_id : TraceId
  pub attempt : ℤ
  pub outcome : Outcome
  pub closed_at : Time
