-- ===== src/Parsers/Result.antt =====
-- internal/source: the errors of the parsers, the events that all of them build on, and arrProtocol.
use tracearr.Prelude.{◌≡◌, ap, false, ◌||◌, String, [], ◌==◌, string_eq, if◌then◌else◌}
use tracearr.Prelude.Int.{pos}
use tracearr.Prelude.Clock.{Time}
use tracearr.Event.{MediaKey, Event, Phase, Source, Release, unset}

pub data ParseError : Type 0 where
  decode missing_event_type missing_ids missing_download_id : ParseError
  unknown_event : String → ParseError

pub data Parsed {ℓ} (A : Type ℓ) : Type ℓ where
  refused : ParseError → Parsed A
  parsed : A → Parsed A

-- The zero value of the struct Release.
abbrev pub no_release : Release
no_release = record {
  title = "";
  indexer = "";
  group = "";
  quality = "";
  quality_profile = "";
  size_bytes = pos 0;
  custom_format_score = pos 0;
  download_client = "";
  download_id = "";
  protocol = "";
  episodes = [];
  is_upgrade = false;
}

-- An event with these fields set, and the others zero.
abbrev pub event : Source → Phase → Time → MediaKey → String → Event
event src phase now key id = record {
  source = src;
  phase = phase;
  occurred_at = now;
  key = key;
  title = "";
  outcome = unset;
  release = no_release;
  request_id = "";
  requested_by = "";
  import_path = "";
  file_size_bytes = pos 0;
  codec = "";
  resolution = "";
  error_reason = "";
  event_id = id;
}

-- the switch on strings.ToLower(clientType)
unfoldable pub arr_protocol : String → String
arr_protocol c =
    if c == "nzbget" || c == "sabnzbd" || c == "usenet" || c == "nzbvortex"
    then "usenet"
    else if c == "qbittorrent"
        || c == "deluge"
        || c == "transmission"
        || c == "rtorrent"
        || c == "torrent"
    then "torrent"
    else ""

pub parsed_injective : {A : Type 0} (a b : A) → parsed a ≡ parsed b → a ≡ b
parsed_injective a b same = ap (λ r. elim r [ parsed x ↦ x | refused e ↦ a ]) same
