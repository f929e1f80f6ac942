-- ===== src/Parsers/Sonarr.antt =====
-- internal/source/sonarr.go.
use Prim.Native.String.{◌++◌ as str_append}
use tracearr.Prelude.{
  Bool, String, List, [], ◌∷◌, map, Option, none, some, ◌==◌, string_eq, if◌then◌else◌,
}
use tracearr.Prelude.Int.{ℤ, pos}
use tracearr.Prelude.Text.{decimal, join_colons}
use tracearr.Prelude.Clock.{Time}
use tracearr.Event.{
  MediaKey, Event, Release, EpisodeRef, Source, sonarr, grabbed, imported, manual_needed,
  media_type_movie, media_type_tv,
}
use tracearr.Parsers.Result.{
  Parsed, refused, parsed, decode, missing_event_type, event, arr_protocol,
}

pub record Series : Type 0 where
  pub title : String
  pub tvdb_id : ℤ
  pub tmdb_id : ℤ

pub record Episode : Type 0 where
  pub episode_number : ℤ
  pub season_number : ℤ
  pub title : String

pub record ReleaseInfo : Type 0 where
  pub quality : String
  pub release_group : String
  pub release_title : String
  pub indexer : String
  pub size : ℤ
  pub custom_format_score : ℤ

pub record FileInfo : Type 0 where
  pub relative_path : String
  pub path : String
  pub size : ℤ
  pub video_codec : String
  pub resolution : String

-- The fields that the parser reads.
pub record SonarrPayload : Type 0 where
  pub event_type : String
  pub series : Series
  pub episodes : List Episode
  pub release : ReleaseInfo
  pub episode_file : FileInfo
  pub download_client : String
  pub download_client_type : String
  pub download_id : String
  pub is_upgrade : Bool

-- What both *arr parsers make of a release; the quality profile is not sent.
abbrev pub arr_release : ReleaseInfo → String → String → String → List EpisodeRef → Bool → Release
arr_release r client id protocol episodes upgrade = record {
  title = r.release_title;
  indexer = r.indexer;
  group = r.release_group;
  quality = r.quality;
  quality_profile = "";
  size_bytes = r.size;
  custom_format_score = r.custom_format_score;
  download_client = client;
  download_id = id;
  protocol = protocol;
  episodes = episodes;
  is_upgrade = upgrade;
}

abbrev pub episode_ref : Episode → EpisodeRef
episode_ref ep = record {
  tvdb_id = pos 0;
  season = ep.season_number;
  episode = ep.episode_number;
  title = ep.title;
}

-- the path of a file, or else its relative path
abbrev pub import_path : FileInfo → String
import_path f = if f.path == "" then f.relative_path else f.path

unfoldable pub movie_key : ℤ → MediaKey
movie_key tmdb = record {
  type = media_type_movie;
  tmdb = tmdb;
  tvdb = pos 0;
  season = pos 0;
  episode = pos 0;
}

unfoldable pub episode_key : Series → Episode → MediaKey
episode_key s ep = record {
  type = media_type_tv;
  tmdb = s.tmdb_id;
  tvdb = s.tvdb_id;
  season = ep.season_number;
  episode = ep.episode_number;
}

-- fmt.Sprintf("%s:<what>:%d:%d", …)
unfoldable pub episode_event_id : String → String → Episode → String
unfolding decimal join_colons
episode_event_id download_id what ep =
    join_colons (download_id ∷ what ∷ decimal ep.season_number ∷ decimal ep.episode_number ∷ [])

module _ (to_lower : String → String) (src : Source) (now : Time) (p : SonarrPayload) where
  unfoldable pub grab_release : Release
  unfolding arr_protocol
  grab_release =
      arr_release p.release p.download_client p.download_id
        (arr_protocol (to_lower p.download_client_type)) (map episode_ref p.episodes) p.is_upgrade

  unfoldable pub grab_event : MediaKey → String → Event
  unfolding grab_release
  grab_event key id = record (event src grabbed now key id) {
    title = p.series.title;
    release = grab_release;
  }

  unfoldable pub sonarr_grabs : List Event
  unfolding grab_event movie_key episode_key episode_event_id
  sonarr_grabs = elim p.episodes [
    | [] ↦ grab_event (movie_key p.series.tmdb_id) (str_append p.download_id ":grab") ∷ []
    | ep ∷ eps ↦
        map (λ ep. grab_event (episode_key p.series ep) (episode_event_id p.download_id "grab" ep))
          (ep ∷ eps)
  ]

  unfoldable pub import_event : MediaKey → String → Event
  import_event key id = record (event src imported now key id) {
    title = p.series.title;
    import_path = import_path p.episode_file;
    file_size_bytes = p.episode_file.size;
    codec = p.episode_file.video_codec;
    resolution = p.episode_file.resolution;
  }

  unfoldable pub sonarr_imports : List Event
  unfolding import_event movie_key episode_key episode_event_id
  sonarr_imports = elim p.episodes [
    | [] ↦ import_event (movie_key p.series.tmdb_id) (str_append p.download_id ":import") ∷ []
    | ep ∷ eps ↦
        map
          (λ ep.
            import_event (episode_key p.series ep) (episode_event_id p.download_id "import" ep))
          (ep ∷ eps)
  ]

  unfoldable pub manual_event : MediaKey → String → Event
  manual_event key id = record (event src manual_needed now key id) { title = p.series.title }

  unfoldable pub sonarr_manual : List Event
  unfolding manual_event movie_key episode_key episode_event_id
  sonarr_manual = elim p.episodes [
    | [] ↦ manual_event (movie_key p.series.tmdb_id) (str_append p.download_id ":manual") ∷ []
    | ep ∷ eps ↦
        map
          (λ ep.
            manual_event (episode_key p.series ep) (episode_event_id p.download_id "manual" ep))
          (ep ∷ eps)
  ]

  -- the switch on the event type
  unfoldable pub sonarr_events : List Event
  sonarr_events =
      if p.event_type == "Test"
      then []
      else if p.event_type == "Grab"
      then sonarr_grabs
      else if p.event_type == "Download"
      then sonarr_imports
      else if p.event_type == "ManualInteractionRequired"
      then sonarr_manual
      else []

module _ (unmarshal : String → Option SonarrPayload) (to_lower : String → String) where
  unfoldable pub parse_arr : Source → Time → String → Parsed (List Event)
  parse_arr src now raw = elim (unmarshal raw) [
    | none ↦ refused decode
    | some p ↦
        if p.event_type == ""
        then refused missing_event_type
        else parsed (sonarr_events to_lower src now p)
  ]

  unfoldable pub parse_sonarr : Time → String → Parsed (List Event)
  parse_sonarr now raw = parse_arr sonarr now raw
