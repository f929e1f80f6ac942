-- ===== src/Examples/Payloads.antt =====
-- internal/source: payloads and the events that they become. The bodies' decoder is a table.
use tracearr.Prelude.{
  ◌≡◌, refl, true, false, String, List, [], ◌∷◌, Option, none, some, string_eq, not, is_some, ◌==◌,
}
use tracearr.Prelude.Int.{pos, negsuc}
use tracearr.Prelude.Text.{
  digits, digit_text, digits_text, decimal, atoi_runes, positive_int, negative_int, read_digits,
  get_elem?,
}
use tracearr.Prelude.Lists.{All, is_empty}
use tracearr.Prelude.Clock.{Time}
use tracearr.Event.{
  Event, sonarr, radarr, nzbget, overseerr, download_start, request_closed, failed,
}
use tracearr.Parsers.Result.{event, parsed}
use tracearr.Parsers.Sonarr.{
  Series, ReleaseInfo, FileInfo, SonarrPayload, parse_sonarr, parse_arr, sonarr_events,
}
use tracearr.Parsers.Radarr.{RadarrPayload, parse_radarr, radarr_events}
use tracearr.Parsers.Overseerr.{
  OverseerrPayload, parse_overseerr, request_event, request_key, notification, atoi, has_no_id,
}
use tracearr.Parsers.Download.{DownloadPayload, parse_download, download_events, download_event}
use tracearr.Parsers.Requests.{is_request_event, parse_overseerr-Request}
use tracearr.Parsers.Arr.{Tells, parse_sonarr-Arr, parse_radarr-Arr}
use tracearr.Parsers.Switch.{arr_phase}
use tracearr.Parsers.Downloads.{IsDownloadEvent, parse_download-Download}
use tracearr.Parsers.Ids.{event_ids, event_ids-sonarr_events, parse_sonarr-unidentified}

decimal_lem : decimal (negsuc 2040) ≡ "-2041"
unfolding decimal digits digits_text digit_text get_elem?
decimal_lem = refl

atoi_lem : atoi "-603" ≡ negsuc 602
unfolding atoi atoi_runes negative_int read_digits
atoi_lem = refl

abbrev no_release : ReleaseInfo
no_release = record {
  quality = "";
  release_group = "";
  release_title = "";
  indexer = "";
  size = pos 0;
  custom_format_score = pos 0;
}

abbrev no_file : FileInfo
no_file = record { relative_path = ""; path = ""; size = pos 0; video_codec = ""; resolution = "" }

abbrev a_show : Series
a_show = record { title = "Show"; tvdb_id = pos 0; tmdb_id = pos 0 }

abbrev other_show : Series
other_show = record { title = "Other"; tvdb_id = pos 8; tmdb_id = pos 9 }

abbrev import_payload : SonarrPayload
import_payload = record {
  event_type = "Download";
  series = a_show;
  episodes = record { episode_number = pos 2; season_number = pos 1; title = "a" } ∷ [];
  release = no_release;
  episode_file = no_file;
  download_client = "";
  download_client_type = "";
  download_id = "";
  is_upgrade = false;
}

abbrev same_text : String → String
same_text s = s

abbrev imports : List Event
imports = sonarr_events same_text sonarr 5 import_payload

parse_sonarr-Arr_example :
    (p : SonarrPayload) × (some import_payload ≡ some p)
    × ((p.event_type == "") ≡ false)
    × Tells sonarr 5 p.event_type imports
unfolding parse_sonarr parse_arr
parse_sonarr-Arr_example =
    parse_sonarr-Arr (λ raw. some import_payload) same_text 5 "body" imports refl

event_ids-sonarr_events_example :
    event_ids (sonarr_events same_text sonarr 5 (record import_payload { series = other_show }))
    ≡ event_ids (sonarr_events same_text sonarr 5 import_payload)
event_ids-sonarr_events_example =
    event_ids-sonarr_events same_text sonarr 5 import_payload other_show

parse_sonarr-unidentified_example :
    (evs : List Event) × (parse_sonarr (λ raw. some import_payload) same_text 5 "body" ≡ parsed evs)
    × All (λ ev. has_no_id ev.key ≡ true) evs
    × (is_empty evs ≡ not (is_some (arr_phase import_payload.event_type)))
parse_sonarr-unidentified_example =
    parse_sonarr-unidentified (λ raw. some import_payload) same_text 5 "body" import_payload refl
      refl refl refl

abbrev movie_payload : RadarrPayload
movie_payload = record {
  event_type = "Grab";
  movie = record { title = "X"; year = pos 2020; tmdb_id = pos 99 };
  release = no_release;
  movie_file = no_file;
  download_client = "SABnzbd";
  download_client_type = "sabnzbd";
  download_id = "sab-1";
  is_upgrade = false;
}

parse_radarr-Arr_example :
    (p : RadarrPayload) × (some movie_payload ≡ some p)
    × ((p.event_type == "") ≡ false)
    × Tells radarr 5 p.event_type (radarr_events same_text 5 movie_payload)
unfolding parse_radarr
parse_radarr-Arr_example =
    parse_radarr-Arr (λ raw. some movie_payload) same_text 5 "body"
      (radarr_events same_text 5 movie_payload) refl

abbrev request_payload : OverseerrPayload
request_payload = record {
  notification_type = "MEDIA_FAILED";
  subject = "The Matrix (1999)";
  media = record { media_type = "movie"; tmdb_id = "603"; tvdb_id = "" };
  request = record { request_id = "42"; requested_by_username = "alice" };
}

abbrev download_payload : DownloadPayload
download_payload = record {
  event = "queue_added";
  download_id = "x";
  name = "r";
  status = "";
  size_bytes = pos 100;
  ts = "";
}

abbrev no_time : String → Option Time
no_time s = none

abbrev started : Event
started = download_event no_time same_text nzbget 5 download_payload download_start ""

parse_download-Download_example :
    (ev : Event) × (started ∷ [] ≡ ev ∷ []) × IsDownloadEvent nzbget ev
unfolding parse_download download_events
parse_download-Download_example =
    parse_download-Download no_time same_text (λ raw. some download_payload) nzbget 5 "body"
      (started ∷ []) refl

abbrev request_failed : Event
request_failed =
    record (event overseerr request_closed 5
      (record { type = "movie"; tmdb = pos 603; tvdb = pos 0; season = pos 0; episode = pos 0 })
      "42:MEDIA_FAILED") {
        title = "The Matrix (1999)";
        request_id = "42";
        requested_by = "alice";
        outcome = failed;
        error_reason = "overseerr.failed";
      }

parse_overseerr-Request_example : is_request_event request_failed ≡ true
unfolding parse_overseerr request_event request_key notification atoi atoi_runes positive_int
    read_digits
parse_overseerr-Request_example =
    parse_overseerr-Request (λ raw. some request_payload) false 5 "body" request_failed refl
