-- ===== src/Parsers/Download.antt =====
-- internal/source/download.go. time.Parse of an RFC 3339 text is a parameter.
use Prim.Native.String.{◌++◌ as str_append}
use tracearr.Prelude.{
  Bool, ◌||◌, String, List, [], ◌∷◌, Option, none, some, ◌==◌, string_eq, if◌then◌else◌,
}
use tracearr.Prelude.Int.{ℤ}
use tracearr.Prelude.Clock.{Time}
use tracearr.Event.{zero_key, Event, Phase, Source, source_text, download_start, download_done}
use tracearr.Spans.Schema
use tracearr.Parsers.Result.{
  Parsed, refused, parsed, decode, missing_download_id, unknown_event, no_release, event,
}

-- The fields that the parser reads.
pub record DownloadPayload : Type 0 where
  pub event : String
  pub download_id : String
  pub name : String
  pub status : String
  pub size_bytes : ℤ
  pub ts : String

-- isFailure, of the status in lower case
unfoldable pub is_failure_text : String → Bool
is_failure_text s = s == "failure" || s == "failed" || s == "error"

module _ (parse_time : String → Option Time) (to_lower : String → String) where
  -- the time that the script sent, where it sent one that can be read
  unfoldable pub event_time : Time → String → Time
  event_time now ts = if ts == "" then now else elim (parse_time ts) [ some t ↦ t | none ↦ now ]

  unfoldable pub download_event : Source → Time → DownloadPayload → Phase → String → Event
  unfolding event_time source_text
  download_event src now p phase reason =
      record (event src phase (event_time now p.ts) zero_key
        (str_append p.download_id (str_append ":" p.event))) {
          release = record no_release {
            title = p.name;
            download_client = source_text src;
            download_id = p.download_id;
            size_bytes = p.size_bytes;
            protocol = "usenet";
          };
          error_reason = reason;
        }

  unfoldable pub download_events : Source → Time → DownloadPayload → Parsed (List Event)
  unfolding download_event is_failure_text
  download_events src now p =
      if p.event == "queue_added"
      then parsed (download_event src now p download_start "" ∷ [])
      else if p.event == "post_processed"
      then parsed (
          download_event src now p download_done
            (if is_failure_text (to_lower p.status) then Schema.err_download_failed else "")
          ∷ [])
      else refused (unknown_event p.event)

  unfoldable pub parse_download :
      (String → Option DownloadPayload) → Source → Time → String → Parsed (List Event)
  parse_download unmarshal src now raw = elim (unmarshal raw) [
    | none ↦ refused decode
    | some p ↦
        if p.download_id == "" then refused missing_download_id else download_events src now p
  ]
