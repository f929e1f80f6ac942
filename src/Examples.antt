-- ===== src/Examples.antt =====
-- internal/correlate/engine.go, store.go: events and stores for the tests of the children.
mod Stores
pub mod Disks
pub mod Settings
mod Ends
mod Serves
mod Startups
mod Lives
mod Searches
mod Builders
mod Payloads
mod Webhooks
mod Polls
use tracearr.Prelude.{ℕ, ◌+◌, ◌%◌, true, false, String, List, [], ◌∷◌, if◌then◌else◌, leb}
use tracearr.Prelude.Int.{pos}
use tracearr.Prelude.Clock.{Time}
use tracearr.Prelude.Lists.{length}
use tracearr.Event.{
  MediaKey, Event, Phase, Release, sonarr, overseerr, available, unset, request_opened, grabbed,
  download_start, imported, request_closed,
}
use tracearr.Store.{TraceState}
use tracearr.Store.Memory
use tracearr.Store.Memory.{MemoryStore, memory_store}
use tracearr.Engine.Calls.{Builder, Call, Context}
use tracearr.Engine.State.{Engine}
use tracearr.Engine.State

-- The builder numbers its spans by the calls.
abbrev pub numbering : Builder
numbering = record {
  root = λ calls. (Context.live (length calls) (length calls), length calls, length calls);
  child = λ calls. length calls;
}

-- unicode.ToLower on ASCII
abbrev pub ascii_lower : ℕ → ℕ
ascii_lower r = if leb 65 r then (if leb r 90 then r + 32 else r) else r

abbrev pub episode_key : MediaKey
episode_key = record { type = "tv"; tmdb = pos 0; tvdb = pos 7; season = pos 1; episode = pos 2 }

abbrev pub whole_series : MediaKey
whole_series = record { type = "tv"; tmdb = pos 0; tvdb = pos 7; season = pos 0; episode = pos 0 }

abbrev pub no_release : Release
no_release = record {
  title = "";
  indexer = "";
  group = "";
  quality = "";
  quality_profile = "";
  size_bytes = pos 0;
  custom_format_score = pos 0;
  download_client = "";
  download_id = "";
  protocol = "";
  episodes = [];
  is_upgrade = false;
}

abbrev pub event : Phase → Time → String → String → Event
event phase at id download_id = record {
  source = sonarr;
  phase = phase;
  occurred_at = at;
  key = episode_key;
  title = "Show";
  outcome = available;
  release = record no_release { download_id = download_id };
  request_id = "";
  requested_by = "";
  import_path = "";
  file_size_bytes = pos 0;
  codec = "";
  resolution = "";
  error_reason = "";
  event_id = id;
}

abbrev pub opening : Event
opening = event request_opened 100 "a" ""

abbrev pub grabbing : Event
grabbing = event grabbed 200 "b" "dl"

abbrev pub starting : Event
starting = event download_start 300 "c" "dl"

abbrev pub closing : Event
closing = event request_closed 400 "d" ""

abbrev pub fresh : Engine memory_store
fresh = State.new (Memory.new 1000 1000) 1000

-- The record that `opening` leaves.
abbrev pub opened_record : TraceState
opened_record = record {
  key = episode_key;
  trace_id = 1;
  root_span_id = 1;
  attempt = pos 1;
  source = sonarr;
  opened_at = 100;
  updated_at = 100;
  grab_span_id = 0;
  has_grab = false;
  download_span_id = 0;
  has_download = false;
  search_start = 100;
  download_started_at = 0;
  download_id = "";
  last_error = "";
  title = "Show";
  request_id = "";
  requested_by = "";
  resumed = false;
}
