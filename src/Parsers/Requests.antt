-- ===== src/Parsers/Requests.antt =====
-- internal/source/overseerr.go: which stages of a trace Overseerr and Jellyseerr speak of.
use tracearr.Prelude.{
  ◌≡◌, Bool, true, false, not, ◌&&◌, ◌||◌, String, Option, none, some, ◌==◌, string_eq,
  if◌then◌else◌, arith, Bool-cases, Option-cases, inl, inr, subst,
}
use tracearr.Prelude.Int.{pos, int_beq}
use tracearr.Prelude.Clock.{Time}
use tracearr.Event.{
  Event, Phase, Outcome, Source, overseerr, jellyseerr, request_opened, request_approved,
  request_closed, unset,
}
use tracearr.Parsers.Result.{refused, parsed, missing_ids, parsed_injective}
use tracearr.Parsers.Overseerr.{
  OverseerrPayload, has_no_id, request_key, notification, request_event, parse_overseerr,
}

abbrev pub is_request : Phase → Bool
is_request request_opened = true
is_request request_approved = true
is_request request_closed = true
is_request _ = false

abbrev closes : Phase → Bool
closes request_closed = true
closes _ = false

abbrev has_outcome : Outcome → Bool
has_outcome unset = false
has_outcome _ = true

-- An event of a request: some id, no season and no episode, and an outcome if it closes.
unfoldable pub is_request_event : Event → Bool
is_request_event ev =
    not (has_no_id ev.key)
    && int_beq ev.key.season (pos 0)
    && int_beq ev.key.episode (pos 0)
    && is_request ev.phase
    && (if closes ev.phase then has_outcome ev.outcome else not (has_outcome ev.outcome))

notification-Request :
    (n : String) (phase : Phase) (outcome : Outcome) (reason : String)
    → notification n ≡ some (phase, outcome, reason)
    → (is_request phase
        && (if closes phase then has_outcome outcome else not (has_outcome outcome)))
      ≡ true
unfolding notification
notification-Request n phase outcome reason said = ground arith

some_injective : {A : Type 0} (a b : A) → some a ≡ some b → a ≡ b
some_injective a b same = cc

request_event-Request :
    (src : Source) (now : Time) (p : OverseerrPayload) (ev : Event)
    → has_no_id (request_key p.media) ≡ false
    → request_event src now p ≡ some ev
    → is_request_event ev ≡ true
unfolding request_event is_request_event request_key
request_event-Request src now p ev identified h =
    elim (Option-cases (notification p.notification_type)) [
      | inl nothing ↦ cc (rw (nothing, request_event) at h)
      | inr ((phase, outcome, reason), said) ↦
          subst (λ ev. is_request_event ev ≡ true)
            (some_injective _ ev (rw (said, request_event) at h))
            (ground (
              arith,
              identified,
              notification-Request p.notification_type phase outcome reason said,
            ))
    ]

-- Overseerr and Jellyseerr speak of requests alone: an event has a TMDB or a TVDB id, is about the
-- whole film or series, is the opening, the approval or the closing of a request, and has an
-- outcome exactly if it closes.
pub parse_overseerr-Request :
    (unmarshal : String → Option OverseerrPayload) (jelly : Bool) (now : Time) (raw : String)
    (ev : Event)
    → parse_overseerr unmarshal jelly now raw ≡ parsed (some ev)
    → is_request_event ev ≡ true
unfolding parse_overseerr
parse_overseerr-Request unmarshal jelly now raw ev h = elim (Option-cases (unmarshal raw)) [
  | inl broken ↦ cc (rw (broken, parse_overseerr) at h)
  | inr (p, read) ↦ from_payload p (rw (read, parse_overseerr) at h)
]
  where
    from_payload :
        (p : OverseerrPayload)
        → (if p.notification_type == "" || p.notification_type == "TEST_NOTIFICATION"
            then parsed none
            else if has_no_id (request_key p.media)
            then refused missing_ids
            else parsed (request_event (if jelly then jellyseerr else overseerr) now p))
          ≡ parsed (some ev)
        → is_request_event ev ≡ true
    from_payload p h =
        elim (Bool-cases
          (p.notification_type == "" || p.notification_type == "TEST_NOTIFICATION")) [
            | inl ignored ↦ cc (parsed_injective none (some ev) (rw ignored at h))
            | inr real ↦ elim (Bool-cases (has_no_id (request_key p.media))) [
              | inl unidentified ↦ cc (rw (real, unidentified) at h)
              | inr identified ↦
                  request_event-Request (if jelly then jellyseerr else overseerr) now p ev
                    identified (parsed_injective _ (some ev) (rw (real, identified) at h))
            ]
          ]
