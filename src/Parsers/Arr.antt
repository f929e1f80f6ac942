-- ===== src/Parsers/Arr.antt =====
-- internal/source/sonarr.go and radarr.go: which stages of a trace Sonarr and Radarr speak of.
use Prim.Native.String.{◌++◌ as str_append}
use tracearr.Prelude.{
  ◌≡◌, refl, false, String, List, [], ◌∷◌, Option, ◌==◌, string_eq, Bool-cases, Option-cases, inl,
  inr, subst, not, is_some, some,
}
use tracearr.Prelude.Lists.{All, is_empty}
use tracearr.Prelude.Clock.{Time}
use tracearr.Event.{Event, Source, sonarr, radarr, unset}
use tracearr.Parsers.Result.{parsed, parsed_injective}
use tracearr.Parsers.Sonarr.{
  SonarrPayload, grab_event, import_event, manual_event, movie_key, episode_key, episode_event_id,
  sonarr_grabs, sonarr_imports, sonarr_manual, sonarr_events, parse_arr, parse_sonarr,
}
use tracearr.Parsers.Radarr.{
  RadarrPayload, radarr_grab, radarr_import, radarr_manual, radarr_events, parse_radarr,
}
use tracearr.Parsers.Switch.{
  arr_phase, All-episodes, All-switch, is_empty-switch, is_empty-episodes,
}

-- An event of an *arr application at this time, of the stage for which the type of the delivery stands,
-- and with no outcome of its own.
unfoldable pub IsArrEvent : Source → Time → String → Event → Type 0
IsArrEvent src now type ev =
    (ev.source ≡ src)
    × (ev.occurred_at ≡ now)
    × (arr_phase type ≡ some ev.phase)
    × (ev.outcome ≡ unset)

-- There are such events alone, and none exactly if the type stands for no stage.
abbrev pub Tells : Source → Time → String → List Event → Type 0
Tells src now type evs =
    All (IsArrEvent src now type) evs × (is_empty evs ≡ not (is_some (arr_phase type)))

module _ (to_lower : String → String) (src : Source) (now : Time) (p : SonarrPayload) where
  pub is_empty-sonarr_events :
      is_empty (sonarr_events to_lower src now p) ≡ not (is_some (arr_phase p.event_type))
  unfolding sonarr_events sonarr_grabs sonarr_imports sonarr_manual
  is_empty-sonarr_events =
      is_empty-switch p.event_type _ _ _ (is_empty-episodes _ _ p.episodes)
        (is_empty-episodes _ _ p.episodes) (is_empty-episodes _ _ p.episodes)

  sonarr_events-Arr : All (IsArrEvent src now p.event_type) (sonarr_events to_lower src now p)
  unfolding sonarr_events sonarr_grabs sonarr_imports sonarr_manual grab_event import_event
      manual_event IsArrEvent
  sonarr_events-Arr =
      All-switch (IsArrEvent src now p.event_type) p.event_type (sonarr_grabs to_lower src now p)
        (sonarr_imports to_lower src now p) (sonarr_manual to_lower src now p)
        (λ stage.
          All-episodes (IsArrEvent src now p.event_type)
            (grab_event to_lower src now p (movie_key p.series.tmdb_id)
              (str_append p.download_id ":grab"))
            (λ ep.
              grab_event to_lower src now p (episode_key p.series ep)
                (episode_event_id p.download_id "grab" ep))
            (refl, refl, stage, refl) (λ ep. (refl, refl, stage, refl)) p.episodes)
        (λ stage.
          All-episodes (IsArrEvent src now p.event_type)
            (import_event to_lower src now p (movie_key p.series.tmdb_id)
              (str_append p.download_id ":import"))
            (λ ep.
              import_event to_lower src now p (episode_key p.series ep)
                (episode_event_id p.download_id "import" ep))
            (refl, refl, stage, refl) (λ ep. (refl, refl, stage, refl)) p.episodes)
        (λ stage.
          All-episodes (IsArrEvent src now p.event_type)
            (manual_event to_lower src now p (movie_key p.series.tmdb_id)
              (str_append p.download_id ":manual"))
            (λ ep.
              manual_event to_lower src now p (episode_key p.series ep)
                (episode_event_id p.download_id "manual" ep))
            (refl, refl, stage, refl) (λ ep. (refl, refl, stage, refl)) p.episodes)

module _ (to_lower : String → String) (now : Time) (p : RadarrPayload) where
  radarr_events-Tells : Tells radarr now p.event_type (radarr_events to_lower now p)
  unfolding radarr_events radarr_grab radarr_import radarr_manual IsArrEvent
  radarr_events-Tells = (
    All-switch (IsArrEvent radarr now p.event_type) p.event_type (radarr_grab to_lower now p ∷ [])
        (radarr_import to_lower now p ∷ []) (radarr_manual to_lower now p ∷ [])
        (λ stage. ((refl, refl, stage, refl), tt)) (λ stage. ((refl, refl, stage, refl), tt))
        (λ stage. ((refl, refl, stage, refl), tt)),
    is_empty-switch p.event_type (radarr_grab to_lower now p ∷ [])
        (radarr_import to_lower now p ∷ []) (radarr_manual to_lower now p ∷ []) refl refl refl,
  )

-- Where Sonarr's parser makes events of a delivery, the body was decoded to a payload with a type; each
-- event is of Sonarr, at the time of the delivery, of the stage for which the type stands ("Grab" a grab,
-- "Download" an import, "ManualInteractionRequired" a manual interaction), and has no outcome set; and
-- there is none exactly if the type stands for no stage.
pub parse_sonarr-Arr :
    (unmarshal : String → Option SonarrPayload) (to_lower : String → String) (now : Time)
    (raw : String) (evs : List Event)
    → parse_sonarr unmarshal to_lower now raw ≡ parsed evs
    → (p : SonarrPayload) × (unmarshal raw ≡ some p)
      × ((p.event_type == "") ≡ false)
      × Tells sonarr now p.event_type evs
unfolding parse_sonarr parse_arr
parse_sonarr-Arr unmarshal to_lower now raw evs h = elim (Option-cases (unmarshal raw)) [
  | inl broken ↦ absurd (cc (rw (broken, parse_arr) at h))
  | inr (p, read) ↦ elim (Bool-cases (p.event_type == "")) [
    | inl no_type ↦ absurd (cc (rw (read, parse_arr, no_type) at h))
    | inr typed ↦ (
      p,
      read,
      typed,
      subst (Tells sonarr now p.event_type)
          (parsed_injective (sonarr_events to_lower sonarr now p) evs
            (rw (read, parse_arr, typed) at h))
          (sonarr_events-Arr to_lower sonarr now p, is_empty-sonarr_events to_lower sonarr now p),
    )
  ]
]

-- Where Radarr's parser makes events of a delivery, the body was decoded to a payload with a type; each
-- event is of Radarr, at the time of the delivery, of the stage for which the type stands ("Grab" a grab,
-- "Download" an import, "ManualInteractionRequired" a manual interaction), and has no outcome set; and
-- there is none exactly if the type stands for no stage.
pub parse_radarr-Arr :
    (unmarshal : String → Option RadarrPayload) (to_lower : String → String) (now : Time)
    (raw : String) (evs : List Event)
    → parse_radarr unmarshal to_lower now raw ≡ parsed evs
    → (p : RadarrPayload) × (unmarshal raw ≡ some p)
      × ((p.event_type == "") ≡ false)
      × Tells radarr now p.event_type evs
unfolding parse_radarr
parse_radarr-Arr unmarshal to_lower now raw evs h = elim (Option-cases (unmarshal raw)) [
  | inl broken ↦ absurd (cc (rw (broken, parse_radarr) at h))
  | inr (p, read) ↦ elim (Bool-cases (p.event_type == "")) [
    | inl no_type ↦ absurd (cc (rw (read, parse_radarr, no_type) at h))
    | inr typed ↦ (
      p,
      read,
      typed,
      subst (Tells radarr now p.event_type)
          (parsed_injective (radarr_events to_lower now p) evs
            (rw (read, parse_radarr, typed) at h))
          (radarr_events-Tells to_lower now p),
    )
  ]
]
