-- ===== src/Parsers/Ids.antt =====
-- internal/source/sonarr.go: what the ids and the keys of events do not tell apart.
use Prim.Native.String.{◌++◌ as str_append}
use tracearr.Prelude.{
  ◌≡◌, refl, true, String, List, [], ◌∷◌, map, string_eq, arith, Option, some, not, is_some, false,
  ◌==◌,
}
use tracearr.Prelude.Int.{pos}
use tracearr.Prelude.Lists.{All, is_empty}
use tracearr.Prelude.Clock.{Time}
use tracearr.Event.{Event, Source, sonarr}
use tracearr.Parsers.Sonarr.{
  SonarrPayload, Series, Episode, grab_event, import_event, manual_event, movie_key, episode_key,
  episode_event_id, sonarr_grabs, sonarr_imports, sonarr_manual, sonarr_events, parse_arr,
  parse_sonarr,
}
use tracearr.Parsers.Overseerr.{has_no_id}
use tracearr.Parsers.Arr.{is_empty-sonarr_events}
use tracearr.Parsers.Switch.{All-episodes, All-switch, arr_phase}
use tracearr.Parsers.Result.{parsed}

unfoldable pub event_ids : List Event → List String
event_ids evs = map (λ (ev : Event). ev.event_id) evs

module _ (to_lower : String → String) (src : Source) (now : Time) (p : SonarrPayload) where
  sonarr_events-unidentified :
      p.series.tmdb_id ≡ pos 0
      → p.series.tvdb_id ≡ pos 0
      → All (λ ev. has_no_id ev.key ≡ true) (sonarr_events to_lower src now p)
  unfolding sonarr_events sonarr_grabs sonarr_imports sonarr_manual grab_event import_event
      manual_event movie_key episode_key
  sonarr_events-unidentified no_tmdb no_tvdb =
      let P : Event → Type 0 = λ ev. has_no_id ev.key ≡ true in
      All-switch P p.event_type (sonarr_grabs to_lower src now p)
        (sonarr_imports to_lower src now p) (sonarr_manual to_lower src now p)
        (λ stage.
          All-episodes P
            (grab_event to_lower src now p (movie_key p.series.tmdb_id)
              (str_append p.download_id ":grab"))
            (λ ep.
              grab_event to_lower src now p (episode_key p.series ep)
                (episode_event_id p.download_id "grab" ep))
            (ground (arith, no_tmdb)) (λ ep. ground (arith, no_tmdb, no_tvdb)) p.episodes)
        (λ stage.
          All-episodes P
            (import_event to_lower src now p (movie_key p.series.tmdb_id)
              (str_append p.download_id ":import"))
            (λ ep.
              import_event to_lower src now p (episode_key p.series ep)
                (episode_event_id p.download_id "import" ep))
            (ground (arith, no_tmdb)) (λ ep. ground (arith, no_tmdb, no_tvdb)) p.episodes)
        (λ stage.
          All-episodes P
            (manual_event to_lower src now p (movie_key p.series.tmdb_id)
              (str_append p.download_id ":manual"))
            (λ ep.
              manual_event to_lower src now p (episode_key p.series ep)
                (episode_event_id p.download_id "manual" ep))
            (ground (arith, no_tmdb)) (λ ep. ground (arith, no_tmdb, no_tvdb)) p.episodes)

-- Sonarr's parser does not refuse a delivery about a series that has neither id, as Overseerr's does, though
-- the doc of MediaKey asks for one: a payload with a type is parsed, to events whose keys have neither id,
-- and to at least one where the type stands for a stage.
pub parse_sonarr-unidentified :
    (unmarshal : String → Option SonarrPayload) (to_lower : String → String) (now : Time)
    (raw : String) (p : SonarrPayload)
    → unmarshal raw ≡ some p
    → (p.event_type == "") ≡ false
    → p.series.tmdb_id ≡ pos 0
    → p.series.tvdb_id ≡ pos 0
    → (evs : List Event) × (parse_sonarr unmarshal to_lower now raw ≡ parsed evs)
      × All (λ ev. has_no_id ev.key ≡ true) evs
      × (is_empty evs ≡ not (is_some (arr_phase p.event_type)))
unfolding parse_sonarr parse_arr
parse_sonarr-unidentified unmarshal to_lower now raw p read typed no_tmdb no_tvdb = (
  sonarr_events to_lower sonarr now p,
  rw (read, parse_arr, typed) refl,
  sonarr_events-unidentified to_lower sonarr now p no_tmdb no_tvdb,
  is_empty-sonarr_events to_lower sonarr now p,
)

event_ids-map :
    (f g : Episode → Event)
    → ((ep : Episode) → (f ep).event_id ≡ (g ep).event_id)
    → (eps : List Episode) → event_ids (map f eps) ≡ event_ids (map g eps)
unfolding event_ids
event_ids-map f g same [] = refl
event_ids-map f g same (ep ∷ eps) = cc (same ep, event_ids-map f g same eps)

event_ids-episodes :
    (film film' : Event) (f g : Episode → Event)
    → film.event_id ≡ film'.event_id
    → ((ep : Episode) → (f ep).event_id ≡ (g ep).event_id)
    → (eps : List Episode)
    → event_ids (elim eps [ [] ↦ film ∷ [] | ep ∷ rest ↦ map f (ep ∷ rest) ])
      ≡ event_ids (elim eps [ [] ↦ film' ∷ [] | ep ∷ rest ↦ map g (ep ∷ rest) ])
unfolding event_ids
event_ids-episodes film film' f g same each [] = cc same
event_ids-episodes film film' f g same each (ep ∷ rest) = event_ids-map f g each (ep ∷ rest)

module _ (to_lower : String → String) (src : Source) (now : Time) (p : SonarrPayload) where
  -- The ids by which the engine drops duplicates do not name the series: a delivery about another
  -- series, with the same episodes and the same download id, has the same ids. The download id may
  -- be empty.
  pub event_ids-sonarr_events :
      (other : Series)
      → event_ids (sonarr_events to_lower src now (record p { series = other }))
        ≡ event_ids (sonarr_events to_lower src now p)
  unfolding sonarr_events
  event_ids-sonarr_events other =
      let q = record p { series = other } in
      let grabs : event_ids (sonarr_grabs to_lower src now q)
          ≡ event_ids (sonarr_grabs to_lower src now p) =
        unfold sonarr_grabs grab_event in
        event_ids-episodes
          (grab_event to_lower src now q (movie_key q.series.tmdb_id)
            (str_append p.download_id ":grab"))
          (grab_event to_lower src now p (movie_key p.series.tmdb_id)
            (str_append p.download_id ":grab"))
          (λ ep.
            grab_event to_lower src now q (episode_key q.series ep)
              (episode_event_id p.download_id "grab" ep))
          (λ ep.
            grab_event to_lower src now p (episode_key p.series ep)
              (episode_event_id p.download_id "grab" ep))
          refl (λ ep. refl) p.episodes in
      let imports : event_ids (sonarr_imports to_lower src now q)
          ≡ event_ids (sonarr_imports to_lower src now p) =
        unfold sonarr_imports import_event in
        event_ids-episodes
          (import_event to_lower src now q (movie_key q.series.tmdb_id)
            (str_append p.download_id ":import"))
          (import_event to_lower src now p (movie_key p.series.tmdb_id)
            (str_append p.download_id ":import"))
          (λ ep.
            import_event to_lower src now q (episode_key q.series ep)
              (episode_event_id p.download_id "import" ep))
          (λ ep.
            import_event to_lower src now p (episode_key p.series ep)
              (episode_event_id p.download_id "import" ep))
          refl (λ ep. refl) p.episodes in
      let manual : event_ids (sonarr_manual to_lower src now q)
          ≡ event_ids (sonarr_manual to_lower src now p) =
        unfold sonarr_manual manual_event in
        event_ids-episodes
          (manual_event to_lower src now q (movie_key q.series.tmdb_id)
            (str_append p.download_id ":manual"))
          (manual_event to_lower src now p (movie_key p.series.tmdb_id)
            (str_append p.download_id ":manual"))
          (λ ep.
            manual_event to_lower src now q (episode_key q.series ep)
              (episode_event_id p.download_id "manual" ep))
          (λ ep.
            manual_event to_lower src now p (episode_key p.series ep)
              (episode_event_id p.download_id "manual" ep))
          refl (λ ep. refl) p.episodes in
      ground (arith, grabs, imports, manual)
