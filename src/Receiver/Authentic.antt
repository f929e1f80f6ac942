-- ===== src/Receiver/Authentic.antt =====
-- internal/receiver/handlers.go: a request that is not authentic leaves the engine as it was.
use tracearr.Prelude.{
  ◌^◌, ◌≡◌, refl, Bool, true, false, ◌&&◌, String, List, [], ◌∷◌, Option, none, some, ◌==◌,
  string_eq, leb, if◌then◌else◌, Bool-cases, inl, inr, arith,
}
use tracearr.Prelude.Lists.{Bytes, length}
use tracearr.Event.{Event, nzbget, sabnzbd}
use tracearr.Config.{AppSource, SourcesConfig}
use tracearr.Store.{Store}
use tracearr.Engine.Calls.{Builder}
use tracearr.Engine.State.{Engine}
use tracearr.Parsers.Result.{Parsed}
use tracearr.Receiver.Auth.{verify_bearer, verify_hmac_sha256}
use tracearr.Receiver.Handlers.{
  with_body, handle_overseerr, handle_script, handle_signed, handle_arr,
}
use tracearr.Receiver.Routes.{
  Sources, Server, Route, webhook_overseerr, webhook_jellyseerr, webhook_sonarr, webhook_radarr,
  script_nzbget, script_sabnzbd, healthz, metrics_page, route_of, allows, HttpRequest, payload_cap,
  capped, counted, serve_route, serve,
}

-- The body comes in whole and is of one MiB at most.
unfoldable pub arrives : HttpRequest → Bool
arrives r = leb (length r.content) (2 ^ 20) && r.complete

-- A bearer's token is that of an enabled source.
unfoldable pub bears : AppSource → Bytes → HttpRequest → Bool
bears app token r = app.enabled && verify_bearer r.authorization token && arrives r

-- The body is signed for an enabled source.
unfoldable pub signs : (Bytes → Bytes) → (Bytes → Bytes → Bytes) → AppSource → HttpRequest → Bool
signs trim_space hmac_sha256 app r =
    app.enabled
    && verify_hmac_sha256 trim_space hmac_sha256 r.signature app.webhook_secret r.content
    && arrives r

-- A delivery that the settings' sources may make: a POST to the path of an enabled source, with that
-- source's own secret, or with its script's token, and with a body that arrives.
unfoldable pub authentic :
    (Bytes → Bytes) → (Bytes → Bytes → Bytes) → SourcesConfig → HttpRequest → Bool
authentic trim_space hmac_sha256 src r =
    r.method == "POST"
    && (if r.path == "/webhook/overseerr"
        then bears src.overseerr src.overseerr.webhook_secret r
        else if r.path == "/webhook/jellyseerr"
        then bears src.jellyseerr src.jellyseerr.webhook_secret r
        else if r.path == "/webhook/sonarr"
        then signs trim_space hmac_sha256 src.sonarr r
        else if r.path == "/webhook/radarr"
        then signs trim_space hmac_sha256 src.radarr r
        else if r.path == "/script/nzbget"
        then bears src.nzbget src.nzbget.script_token r
        else if r.path == "/script/sabnzbd"
        then bears src.sabnzbd src.sabnzbd.script_token r
        else false)

-- The authentic ones of the requests.
unfoldable pub deliveries :
    (Bytes → Bytes) → (Bytes → Bytes → Bytes) → SourcesConfig → List HttpRequest → List HttpRequest
deliveries trim_space hmac_sha256 src [] = []
deliveries trim_space hmac_sha256 src (r ∷ rs) =
    let rest = deliveries trim_space hmac_sha256 src rs in
    if authentic trim_space hmac_sha256 src r then r ∷ rest else rest

-- What a route asks of a request that it may handle.
abbrev permits :
    (Bytes → Bytes) → (Bytes → Bytes → Bytes) → SourcesConfig → Route → HttpRequest → Bool
permits trim_space hmac_sha256 src webhook_overseerr r =
    bears src.overseerr src.overseerr.webhook_secret r
permits trim_space hmac_sha256 src webhook_jellyseerr r =
    bears src.jellyseerr src.jellyseerr.webhook_secret r
permits trim_space hmac_sha256 src webhook_sonarr r = signs trim_space hmac_sha256 src.sonarr r
permits trim_space hmac_sha256 src webhook_radarr r = signs trim_space hmac_sha256 src.radarr r
permits trim_space hmac_sha256 src script_nzbget r = bears src.nzbget src.nzbget.script_token r
permits trim_space hmac_sha256 src script_sabnzbd r = bears src.sabnzbd src.sabnzbd.script_token r
permits trim_space hmac_sha256 src healthz r = false
permits trim_space hmac_sha256 src metrics_page r = false

allows_post : (method : String) → allows "POST" method ≡ (method == "POST")
unfolding allows
allows_post method =
    ground (arith, string_eq.beq_iff method "POST", string_eq.beq_iff "POST" method)

module _ (B : Builder) {S : Store} where
  engine-handle_overseerr :
      (app : AppSource) (parse : Bytes → Parsed (Option Event)) (r : HttpRequest) (e : Engine S)
      → bears app app.webhook_secret r ≡ false
      → (handle_overseerr B app parse (capped r) e).1 ≡ e
  unfolding bears arrives handle_overseerr with_body capped payload_cap
  engine-handle_overseerr app parse r e h = ground (arith, h)

  engine-handle_script :
      (app : AppSource) (parse : Bytes → Parsed (List Event)) (r : HttpRequest) (e : Engine S)
      → bears app app.script_token r ≡ false
      → (handle_script B app parse (capped r) e).1 ≡ e
  unfolding bears arrives handle_script with_body capped payload_cap
  engine-handle_script app parse r e h = ground (arith, h)

  module _ (trim_space : Bytes → Bytes) (hmac_sha256 : Bytes → Bytes → Bytes) where
    engine-handle_arr :
        (app : AppSource) (parse : Bytes → Parsed (List Event)) (r : HttpRequest) (e : Engine S)
        → signs trim_space hmac_sha256 app r ≡ false
        → (handle_arr B trim_space hmac_sha256 app parse (capped r) e).1 ≡ e
    unfolding signs arrives handle_arr handle_signed with_body capped payload_cap
    engine-handle_arr app parse r e h = ground (arith, h)

    module _ (p : Sources) where
      engine-serve_route :
          (route : Route) (r : HttpRequest) (s : Server) (e : Engine S)
          → permits trim_space hmac_sha256 s.sources route r ≡ false
          → (serve_route B trim_space hmac_sha256 p route (capped r) s e).1.1 ≡ e
      unfolding serve_route counted
      engine-serve_route webhook_overseerr r s e h =
          engine-handle_overseerr s.sources.overseerr (p.parse_overseerr false) r e h
      engine-serve_route webhook_jellyseerr r s e h =
          engine-handle_overseerr s.sources.jellyseerr (p.parse_overseerr true) r e h
      engine-serve_route webhook_sonarr r s e h =
          engine-handle_arr s.sources.sonarr p.parse_sonarr r e h
      engine-serve_route webhook_radarr r s e h =
          engine-handle_arr s.sources.radarr p.parse_radarr r e h
      engine-serve_route script_nzbget r s e h =
          engine-handle_script s.sources.nzbget (p.parse_download nzbget) r e h
      engine-serve_route script_sabnzbd r s e h =
          engine-handle_script s.sources.sabnzbd (p.parse_download sabnzbd) r e h
      engine-serve_route healthz r s e h = refl
      engine-serve_route metrics_page r s e h = refl

      engine-serve_unknown :
          (r : HttpRequest) (s : Server) (e : Engine S)
          → route_of s.scrapes r.path ≡ none
          → (serve B trim_space hmac_sha256 p r s e).1.1 ≡ e
      unfolding serve
      engine-serve_unknown r s e unknown = rw (unknown, serve) refl

      engine-serve_known :
          (pattern : String) (route : Route) (r : HttpRequest) (s : Server) (e : Engine S)
          → route_of s.scrapes r.path ≡ some (pattern, route)
          → (allows pattern r.method && permits trim_space hmac_sha256 s.sources route r) ≡ false
          → (serve B trim_space hmac_sha256 p r s e).1.1 ≡ e
      unfolding serve
      engine-serve_known pattern route r s e known h = elim (Bool-cases (allows pattern r.method)) [
        | inr other ↦ rw (known, other, serve) refl
        | inl allowed ↦
            rw (known, allowed, serve) (engine-serve_route route r s e (rw allowed at h))
      ]

      -- A request that is not authentic leaves the engine as it was.
      pub engine-serve :
          (r : HttpRequest) (s : Server) (e : Engine S)
          → authentic trim_space hmac_sha256 s.sources r ≡ false
          → (serve B trim_space hmac_sha256 p r s e).1.1 ≡ e
      unfolding authentic route_of
      engine-serve r s e h =
          let post : (route : Route)
              → route_of s.scrapes r.path ≡ some ("POST", route)
              → (r.method == "POST" && permits trim_space hmac_sha256 s.sources route r) ≡ false
              → (serve B trim_space hmac_sha256 p r s e).1.1 ≡ e =
            λ route known refused.
              engine-serve_known "POST" route r s e known (rw (allows_post r.method) refused) in
          let page : (route : Route)
              → route_of s.scrapes r.path ≡ some ("GET", route)
              → permits trim_space hmac_sha256 s.sources route r ≡ false
              → (serve B trim_space hmac_sha256 p r s e).1.1 ≡ e =
            λ route known refused.
              engine-serve_known "GET" route r s e known (ground (arith, refused)) in
          let missing = engine-serve_unknown r s e in
          elim (Bool-cases (r.path == "/webhook/overseerr")) [
            | inl here ↦ post webhook_overseerr (rw here refl) (rw here at h)
            | inr no0 ↦ elim (Bool-cases (r.path == "/webhook/jellyseerr")) [
              | inl here ↦ post webhook_jellyseerr (rw (no0, here) refl) (rw (no0, here) at h)
              | inr no1 ↦ elim (Bool-cases (r.path == "/webhook/sonarr")) [
                | inl here ↦
                    post webhook_sonarr (rw (no0, no1, here) refl) (rw (no0, no1, here) at h)
                | inr no2 ↦ elim (Bool-cases (r.path == "/webhook/radarr")) [
                  | inl here ↦
                      post webhook_radarr (rw (no0, no1, no2, here) refl)
                        (rw (no0, no1, no2, here) at h)
                  | inr no3 ↦ elim (Bool-cases (r.path == "/script/nzbget")) [
                    | inl here ↦
                        post script_nzbget (rw (no0, no1, no2, no3, here) refl)
                          (rw (no0, no1, no2, no3, here) at h)
                    | inr no4 ↦ elim (Bool-cases (r.path == "/script/sabnzbd")) [
                      | inl here ↦
                          post script_sabnzbd (rw (no0, no1, no2, no3, no4, here) refl)
                            (rw (no0, no1, no2, no3, no4, here) at h)
                      | inr no5 ↦ elim (Bool-cases (r.path == "/healthz")) [
                        | inl here ↦
                            page healthz (rw (no0, no1, no2, no3, no4, no5, here) refl) refl
                        | inr no6 ↦ elim (Bool-cases (r.path == "/metrics")) [
                          | inr no7 ↦ missing (rw (no0, no1, no2, no3, no4, no5, no6, no7) refl)
                          | inl here ↦ elim (Bool-cases s.scrapes) [
                            | inl on ↦
                                page metrics_page
                                  (rw (no0, no1, no2, no3, no4, no5, no6, here, on) refl) refl
                            | inr off ↦
                                missing (rw (no0, no1, no2, no3, no4, no5, no6, here, off) refl)
                          ]
                        ]
                      ]
                    ]
                  ]
                ]
              ]
            ]
          ]
