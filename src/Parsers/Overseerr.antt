-- ===== src/Parsers/Overseerr.antt =====
-- internal/source/overseerr.go, which Jellyseerr shares.
use Prim.Native.String.{◌++◌ as str_append}
use tracearr.Prelude.{Bool, ◌&&◌, ◌||◌, String, Option, none, some, ◌==◌, string_eq, if◌then◌else◌}
use tracearr.Prelude.Int.{ℤ, pos, int_beq}
use tracearr.Prelude.Text.{atoi_runes, runes}
use tracearr.Prelude.Clock.{Time}
use tracearr.Event.{
  MediaKey, Event, Phase, Outcome, Source, overseerr, jellyseerr, request_opened, request_approved,
  request_closed, available, failed, declined, unset, media_type_movie, media_type_tv,
}
use tracearr.Spans.Schema
use tracearr.Parsers.Result.{Parsed, refused, parsed, decode, missing_ids, event}

pub record Media : Type 0 where
  pub media_type : String
  pub tmdb_id : String
  pub tvdb_id : String

pub record Request : Type 0 where
  pub request_id : String
  pub requested_by_username : String

-- The fields that the parser reads.
pub record OverseerrPayload : Type 0 where
  pub notification_type : String
  pub subject : String
  pub media : Media
  pub request : Request

-- strconv.Atoi without its error
unfoldable pub atoi : String → ℤ
unfolding atoi_runes
atoi s = atoi_runes (runes s)

unfoldable pub request_key : Media → MediaKey
request_key m = record {
  type = if m.media_type == "tv" then media_type_tv else media_type_movie;
  tmdb = atoi m.tmdb_id;
  tvdb = atoi m.tvdb_id;
  season = pos 0;
  episode = pos 0;
}

-- What the notification says: the phase, the outcome and the reason of an error.
unfoldable pub notification : String → Option (Phase × Outcome × String)
notification n =
    if n == "MEDIA_PENDING" || n == "MEDIA_AUTO_APPROVED"
    then some (request_opened, unset, "")
    else if n == "MEDIA_APPROVED"
    then some (request_approved, unset, "")
    else if n == "MEDIA_AVAILABLE"
    then some (request_closed, available, "")
    else if n == "MEDIA_FAILED"
    then some (request_closed, failed, Schema.err_overseerr_failed)
    else if n == "MEDIA_DECLINED"
    then some (request_closed, declined, Schema.err_overseerr_declined)
    else none

unfoldable pub request_event : Source → Time → OverseerrPayload → Option Event
unfolding request_key
request_event src now p = elim (notification p.notification_type) [
  | none ↦ none
  | some (phase, outcome, reason) ↦
      some
        (record (event src phase now (request_key p.media)
          (str_append p.request.request_id (str_append ":" p.notification_type))) {
            title = p.subject;
            request_id = p.request.request_id;
            requested_by = p.request.requested_by_username;
            outcome = outcome;
            error_reason = reason;
          })
]

-- Neither id is there.
abbrev pub has_no_id : MediaKey → Bool
has_no_id k = int_beq k.tmdb (pos 0) && int_beq k.tvdb (pos 0)

unfoldable pub parse_overseerr :
    (String → Option OverseerrPayload) → Bool → Time → String → Parsed (Option Event)
parse_overseerr unmarshal is_jellyseerr now raw = elim (unmarshal raw) [
  | none ↦ refused decode
  | some p ↦
      if p.notification_type == "" || p.notification_type == "TEST_NOTIFICATION"
      then parsed none
      else if has_no_id (request_key p.media)
      then refused missing_ids
      else parsed (request_event (if is_jellyseerr then jellyseerr else overseerr) now p)
]
