-- ===== src/Store/Disk/Codec.antt =====
-- internal/correlate/store_bolt.go: the JSON of `TraceState` and `ClosedTrace`, as encoding/json makes
-- it from their fields and their tags in store.go.
use tracearr.Prelude.{
  ◌*◌, ◌^◌, ◌≡◌, refl, Bool, false, ◌&&◌, Option, none, some, ltb, ◌>>=◌, arith, if◌then◌else◌,
}
use tracearr.Prelude.Int.{pos}
use tracearr.Prelude.Clock.{Time}
use tracearr.Event.{MediaKey, Source, source_text, Outcome, outcome_text}
use tracearr.Store.Records.{TraceState, ClosedTrace}
use tracearr.Store.Disk.Json.{
  Json, null, bool, number, text, bytes, instant, object, Fields, end, field, find_field,
  marshal_key, unmarshal_key, read_bool, read_int, read_text, read_bytes, read_instant, read_source,
  read_outcome,
}

-- Time.MarshalJSON fails after the year 9999, which is 3652059 days after Go's zero time.
unfoldable pub writes_instant : Time → Bool
writes_instant t = ltb t (3652059 * 86400 * 10 ^ 9)

unfoldable pub trace_fields : TraceState → Fields
unfolding marshal_key source_text
trace_fields t = field "key" (marshal_key t.key) (
    field "trace_id" (bytes t.trace_id) (
      field "root_span_id" (bytes t.root_span_id) (
        field "attempt" (number t.attempt) (
          field "source" (text (source_text t.source)) (
            field "opened_at" (instant t.opened_at) (
              field "updated_at" (instant t.updated_at) (
                field "grab_span_id" (bytes t.grab_span_id) (
                  field "has_grab" (bool t.has_grab) (
                    field "download_span_id" (bytes t.download_span_id) (
                      field "has_download" (bool t.has_download) (
                        field "search_start" (instant t.search_start) (
                          field "download_started_at" (instant t.download_started_at) (
                            field "download_id" (text t.download_id) (
                              field "last_error" (text t.last_error) (
                                field "title" (text t.title) (
                                  field "request_id" (text t.request_id) (
                                    field "requested_by" (text t.requested_by)
                                      (end))))))))))))))))))

unfoldable pub marshal_trace : TraceState → Option Json
unfolding writes_instant trace_fields
marshal_trace t =
    if writes_instant t.opened_at
      && writes_instant t.updated_at
      && writes_instant t.search_start
      && writes_instant t.download_started_at
    then some (object (trace_fields t))
    else none

-- The field `Resumed` is not written, so that it is not set in what is read.
-- Only what the program writes is read as Go reads it: a null, which Go takes for a record without a source,
-- and the text of a source that Go has no constant for have no record here.
unfoldable pub unmarshal_trace : Json → Option TraceState
unfolding find_field unmarshal_key read_bool read_int read_text read_bytes read_instant read_source
unmarshal_trace (object fs) = do
  key ← unmarshal_key (find_field "key" fs)
  trace_id ← read_bytes (find_field "trace_id" fs)
  root_span_id ← read_bytes (find_field "root_span_id" fs)
  attempt ← read_int (find_field "attempt" fs)
  source ← read_source (find_field "source" fs)
  opened_at ← read_instant (find_field "opened_at" fs)
  updated_at ← read_instant (find_field "updated_at" fs)
  grab_span_id ← read_bytes (find_field "grab_span_id" fs)
  has_grab ← read_bool (find_field "has_grab" fs)
  download_span_id ← read_bytes (find_field "download_span_id" fs)
  has_download ← read_bool (find_field "has_download" fs)
  search_start ← read_instant (find_field "search_start" fs)
  download_started_at ← read_instant (find_field "download_started_at" fs)
  download_id ← read_text (find_field "download_id" fs)
  last_error ← read_text (find_field "last_error" fs)
  title ← read_text (find_field "title" fs)
  request_id ← read_text (find_field "request_id" fs)
  requested_by ← read_text (find_field "requested_by" fs)
  some (record {
    key = key;
    trace_id = trace_id;
    root_span_id = root_span_id;
    attempt = attempt;
    source = source;
    opened_at = opened_at;
    updated_at = updated_at;
    grab_span_id = grab_span_id;
    has_grab = has_grab;
    download_span_id = download_span_id;
    has_download = has_download;
    search_start = search_start;
    download_started_at = download_started_at;
    download_id = download_id;
    last_error = last_error;
    title = title;
    request_id = request_id;
    requested_by = requested_by;
    resumed = false;
  })
unmarshal_trace _ = none

unfoldable pub marshal_closed : ClosedTrace → Option Json
unfolding writes_instant outcome_text
marshal_closed c =
    if writes_instant c.closed_at
    then some (
        object (
          field "TraceID" (bytes c.trace_id) (
            field "Attempt" (number c.attempt) (
              field "Outcome" (text (outcome_text c.outcome))
                (field "ClosedAt" (instant c.closed_at) end)))))
    else none

unfoldable pub unmarshal_closed : Json → Option ClosedTrace
unfolding find_field read_bytes read_int read_outcome read_instant
unmarshal_closed (object fs) = do
  trace_id ← read_bytes (find_field "TraceID" fs)
  attempt ← read_int (find_field "Attempt" fs)
  outcome ← read_outcome (find_field "Outcome" fs)
  closed_at ← read_instant (find_field "ClosedAt" fs)
  some (record { trace_id = trace_id; attempt = attempt; outcome = outcome; closed_at = closed_at })
unmarshal_closed null =
    some (record { trace_id = 0; attempt = pos 0; outcome = Outcome.unset; closed_at = 0 })
unmarshal_closed _ = none

pub unmarshal_key-marshal_key : (k : MediaKey) → unmarshal_key (marshal_key k) ≡ some k
unfolding marshal_key unmarshal_key read_text read_int find_field
unmarshal_key-marshal_key k = refl

pub read_source-source_text : (s : Source) → read_source (text (source_text s)) ≡ some s
unfolding read_source source_text
read_source-source_text Source.overseerr = refl
read_source-source_text Source.jellyseerr = refl
read_source-source_text Source.sonarr = refl
read_source-source_text Source.radarr = refl
read_source-source_text Source.prowlarr = refl
read_source-source_text Source.nzbget = refl
read_source-source_text Source.sabnzbd = refl

read_outcome-outcome_text : (o : Outcome) → read_outcome (text (outcome_text o)) ≡ some o
unfolding read_outcome outcome_text
read_outcome-outcome_text Outcome.available = refl
read_outcome-outcome_text Outcome.failed = refl
read_outcome-outcome_text Outcome.declined = refl
read_outcome-outcome_text Outcome.timeout = refl
read_outcome-outcome_text Outcome.unset = refl

unmarshal_trace-trace_fields :
    (t : TraceState)
    → unmarshal_trace (object (trace_fields t)) ≡ some (record t { resumed = false })
unfolding unmarshal_trace trace_fields find_field unmarshal_key marshal_key read_bool read_int
    read_text read_bytes read_instant
unmarshal_trace-trace_fields t = rw (read_source-source_text t.source) refl

-- What Marshal wrote of a trace is read back, but for `Resumed`.
pub unmarshal_trace-marshal_trace :
    (t : TraceState) (j : Json)
    → marshal_trace t ≡ some j
    → unmarshal_trace j ≡ some (record t { resumed = false })
unfolding marshal_trace
unmarshal_trace-marshal_trace t j h = ground (arith, h, unmarshal_trace-trace_fields t)

-- What Marshal wrote of a closed trace is read back.
pub unmarshal_closed-marshal_closed :
    (c : ClosedTrace) (j : Json) → marshal_closed c ≡ some j → unmarshal_closed j ≡ some c
unfolding marshal_closed unmarshal_closed find_field read_bytes read_int read_instant
unmarshal_closed-marshal_closed c j h = ground (arith, h, read_outcome-outcome_text c.outcome)
