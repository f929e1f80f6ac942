-- ===== src/Receiver/Served.antt =====
-- internal/receiver/handlers.go: what any HTTP requests leave of the engine's invariants.
use tracearr.Prelude.{
  true, false, List, [], ◌∷◌, Option, none, some, Bool-cases, Option-cases, inl, inr,
}
use tracearr.Prelude.Lists.{Bytes}
use tracearr.Event.{Event, nzbget, sabnzbd}
use tracearr.Config.{AppSource}
use tracearr.Store.{Store, KeyLaws}
use tracearr.Engine.Calls.{Context, Builder}
use tracearr.Engine.State.{Engine}
use tracearr.Engine.Process.{process, process_all}
use tracearr.Engine.Runs.{Sound, process-Sound}
use tracearr.Parsers.Result.{Parsed, refused, parsed}
use tracearr.Receiver.Auth.{verify_bearer, verify_hmac_sha256}
use tracearr.Receiver.Handlers.{
  Body, received, too_large, broken, Request, Response, deliver_events, deliver_event, with_body,
  handle_overseerr, handle_script, handle_signed, handle_arr,
}
use tracearr.Receiver.Routes.{
  Sources, Server, Route, webhook_overseerr, webhook_jellyseerr, webhook_sonarr, webhook_radarr,
  script_nzbget, script_sabnzbd, healthz, metrics_page, route_of, allows, HttpRequest, capped,
  counted, serve_route, serve, serve_all,
}

module _ (B : Builder) {S : Store} (L : KeyLaws S) where
  process_all-Sound :
      (ctx : Context) (evs : List Event) (e : Engine S)
      → Sound B L e
      → Sound B L (process_all B ctx evs e)
  unfolding process_all
  process_all-Sound ctx [] e h = h
  process_all-Sound ctx (ev ∷ rest) e h =
      process_all-Sound ctx rest (process B ctx ev e) (process-Sound B L ctx ev e h)

  deliver_events-Sound :
      (ctx : Context) (p : Parsed (List Event)) (e : Engine S)
      → Sound B L e
      → Sound B L (deliver_events B ctx p e).1
  unfolding deliver_events
  deliver_events-Sound ctx (refused why) e h = h
  deliver_events-Sound ctx (parsed evs) e h = process_all-Sound ctx evs e h

  deliver_event-Sound :
      (ctx : Context) (p : Parsed (Option Event)) (e : Engine S)
      → Sound B L e
      → Sound B L (deliver_event B ctx p e).1
  unfolding deliver_event
  deliver_event-Sound ctx (refused why) e h = h
  deliver_event-Sound ctx (parsed none) e h = h
  deliver_event-Sound ctx (parsed (some ev)) e h = process-Sound B L ctx ev e h

  with_body-Sound :
      (b : Body) (next : Bytes → Response × Engine S) (e : Engine S)
      → ((body : Bytes) → Sound B L (next body).1)
      → Sound B L e
      → Sound B L (with_body B b next e).1
  unfolding with_body
  with_body-Sound (received body) next e h sound = h body
  with_body-Sound too_large next e h sound = sound
  with_body-Sound broken next e h sound = sound

  handle_overseerr-Sound :
      (app : AppSource) (parse : Bytes → Parsed (Option Event)) (r : Request) (e : Engine S)
      → Sound B L e
      → Sound B L (handle_overseerr B app parse r e).1
  unfolding handle_overseerr
  handle_overseerr-Sound app parse r e h = elim (Bool-cases app.enabled) [
    | inr disabled ↦ rw (disabled, handle_overseerr) h
    | inl enabled ↦ elim (Bool-cases (verify_bearer r.authorization app.webhook_secret)) [
      | inr wrong ↦ rw (enabled, wrong, handle_overseerr) h
      | inl right ↦
          rw (enabled, right, handle_overseerr)
            (with_body-Sound r.body (λ body. deliver_event B r.context (parse body) e) e
              (λ body. deliver_event-Sound r.context (parse body) e h) h)
    ]
  ]

  handle_script-Sound :
      (app : AppSource) (parse : Bytes → Parsed (List Event)) (r : Request) (e : Engine S)
      → Sound B L e
      → Sound B L (handle_script B app parse r e).1
  unfolding handle_script
  handle_script-Sound app parse r e h = elim (Bool-cases app.enabled) [
    | inr disabled ↦ rw (disabled, handle_script) h
    | inl enabled ↦ elim (Bool-cases (verify_bearer r.authorization app.script_token)) [
      | inr wrong ↦ rw (enabled, wrong, handle_script) h
      | inl right ↦
          rw (enabled, right, handle_script)
            (with_body-Sound r.body (λ body. deliver_events B r.context (parse body) e) e
              (λ body. deliver_events-Sound r.context (parse body) e h) h)
    ]
  ]

  module _ (trim_space : Bytes → Bytes) (hmac_sha256 : Bytes → Bytes → Bytes) where
    handle_signed-Sound :
        (app : AppSource) (parse : Bytes → Parsed (List Event)) (r : Request) (e : Engine S)
        (body : Bytes)
        → Sound B L e
        → Sound B L (handle_signed B trim_space hmac_sha256 app parse r e body).1
    unfolding handle_signed
    handle_signed-Sound app parse r e body h =
        elim (Bool-cases
          (verify_hmac_sha256 trim_space hmac_sha256 r.signature app.webhook_secret body)) [
            | inr wrong ↦ rw (wrong, handle_signed) h
            | inl right ↦
                rw (right, handle_signed) (deliver_events-Sound r.context (parse body) e h)
          ]

    handle_arr-Sound :
        (app : AppSource) (parse : Bytes → Parsed (List Event)) (r : Request) (e : Engine S)
        → Sound B L e
        → Sound B L (handle_arr B trim_space hmac_sha256 app parse r e).1
    unfolding handle_arr handle_signed
    handle_arr-Sound app parse r e h = elim (Bool-cases app.enabled) [
      | inr disabled ↦ rw (disabled, handle_arr) h
      | inl enabled ↦
          rw (enabled, handle_arr)
            (with_body-Sound r.body (handle_signed B trim_space hmac_sha256 app parse r e) e
              (λ body. handle_signed-Sound app parse r e body h) h)
    ]

    module _ (p : Sources) where
      serve_route-Sound :
          (route : Route) (r : Request) (s : Server) (e : Engine S)
          → Sound B L e
          → Sound B L (serve_route B trim_space hmac_sha256 p route r s e).1.1
      unfolding serve_route counted
      serve_route-Sound webhook_overseerr r s e h =
          handle_overseerr-Sound s.sources.overseerr (p.parse_overseerr false) r e h
      serve_route-Sound webhook_jellyseerr r s e h =
          handle_overseerr-Sound s.sources.jellyseerr (p.parse_overseerr true) r e h
      serve_route-Sound webhook_sonarr r s e h =
          handle_arr-Sound s.sources.sonarr p.parse_sonarr r e h
      serve_route-Sound webhook_radarr r s e h =
          handle_arr-Sound s.sources.radarr p.parse_radarr r e h
      serve_route-Sound script_nzbget r s e h =
          handle_script-Sound s.sources.nzbget (p.parse_download nzbget) r e h
      serve_route-Sound script_sabnzbd r s e h =
          handle_script-Sound s.sources.sabnzbd (p.parse_download sabnzbd) r e h
      serve_route-Sound healthz r s e h = h
      serve_route-Sound metrics_page r s e h = h

      serve-Sound :
          (r : HttpRequest) (s : Server) (e : Engine S)
          → Sound B L e
          → Sound B L (serve B trim_space hmac_sha256 p r s e).1.1
      unfolding serve
      serve-Sound r s e h = elim (Option-cases (route_of s.scrapes r.path)) [
        | inl unknown ↦ rw (unknown, serve) h
        | inr ((pattern, route), known) ↦ elim (Bool-cases (allows pattern r.method)) [
          | inr other ↦ rw (known, other, serve) h
          | inl allowed ↦ rw (known, allowed, serve) (serve_route-Sound route (capped r) s e h)
        ]
      ]

      -- Whatever requests come in, authentic or not, and whatever their bodies: the engine's invariants
      -- hold after them as before: each record has a root context, each context a record, and each open
      -- child span a record that owns it.
      pub serve_all-Sound :
          (rs : List HttpRequest) (s : Server) (e : Engine S)
          → Sound B L e
          → Sound B L (serve_all B trim_space hmac_sha256 p rs s e).1
      unfolding serve_all
      serve_all-Sound [] s e h = h
      serve_all-Sound (r ∷ rest) s e h =
          let after = (serve B trim_space hmac_sha256 p r s e).1 in
          serve_all-Sound rest after.0 after.1 (serve-Sound r s e h)
