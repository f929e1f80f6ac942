-- ===== src/Parsers/Radarr.antt =====
-- internal/source/radarr.go.
use Prim.Native.String.{◌++◌ as str_append}
use tracearr.Prelude.{
  Bool, String, List, [], ◌∷◌, Option, none, some, ◌==◌, string_eq, if◌then◌else◌,
}
use tracearr.Prelude.Int.{ℤ, is_nonzero}
use tracearr.Prelude.Text.{decimal}
use tracearr.Prelude.Clock.{Time}
use tracearr.Event.{Event, radarr, grabbed, imported, manual_needed}
use tracearr.Parsers.Result.{
  Parsed, refused, parsed, decode, missing_event_type, event, arr_protocol,
}
use tracearr.Parsers.Sonarr.{ReleaseInfo, FileInfo, arr_release, import_path, movie_key}

pub record Movie : Type 0 where
  pub title : String
  pub year : ℤ
  pub tmdb_id : ℤ

-- The fields that the parser reads.
pub record RadarrPayload : Type 0 where
  pub event_type : String
  pub movie : Movie
  pub release : ReleaseInfo
  pub movie_file : FileInfo
  pub download_client : String
  pub download_client_type : String
  pub download_id : String
  pub is_upgrade : Bool

-- fmt.Sprintf("%s (%d)", …) where there is a year
unfoldable pub movie_title : Movie → String
unfolding decimal
movie_title m =
    if is_nonzero m.year
    then str_append m.title (str_append " (" (str_append (decimal m.year) ")"))
    else m.title

module _ (to_lower : String → String) (now : Time) (p : RadarrPayload) where
  unfoldable pub radarr_grab : Event
  unfolding arr_protocol movie_key movie_title
  radarr_grab =
      record (event radarr grabbed now (movie_key p.movie.tmdb_id)
        (str_append p.download_id ":grab")) {
          title = movie_title p.movie;
          release =
              arr_release p.release p.download_client p.download_id
                (arr_protocol (to_lower p.download_client_type)) [] p.is_upgrade;
        }

  unfoldable pub radarr_import : Event
  unfolding movie_key movie_title
  radarr_import =
      record (event radarr imported now (movie_key p.movie.tmdb_id)
        (str_append p.download_id ":import")) {
          title = movie_title p.movie;
          import_path = import_path p.movie_file;
          file_size_bytes = p.movie_file.size;
          codec = p.movie_file.video_codec;
          resolution = p.movie_file.resolution;
        }

  unfoldable pub radarr_manual : Event
  unfolding movie_key movie_title
  radarr_manual =
      record (event radarr manual_needed now (movie_key p.movie.tmdb_id)
        (str_append p.download_id ":manual")) { title = movie_title p.movie }

  -- the switch on the event type
  unfoldable pub radarr_events : List Event
  radarr_events =
      if p.event_type == "Test"
      then []
      else if p.event_type == "Grab"
      then radarr_grab ∷ []
      else if p.event_type == "Download"
      then radarr_import ∷ []
      else if p.event_type == "ManualInteractionRequired"
      then radarr_manual ∷ []
      else []

module _ (unmarshal : String → Option RadarrPayload) (to_lower : String → String) where
  unfoldable pub parse_radarr : Time → String → Parsed (List Event)
  parse_radarr now raw = elim (unmarshal raw) [
    | none ↦ refused decode
    | some p ↦
        if p.event_type == ""
        then refused missing_event_type
        else parsed (radarr_events to_lower now p)
  ]
