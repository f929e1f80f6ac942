-- ===== src/Receiver/Routes.antt =====
-- internal/receiver/handlers.go: `Server`, its routes, and what it serves. The patterns of http.ServeMux
-- are matched here as its documentation says: GET stands for HEAD too, a known path with another
-- method is answered with 405, and any other path with 404.
use tracearr.Prelude.{
  ℕ, ◌^◌, Bool, true, false, ◌||◌, ◌&&◌, String, List, [], ◌∷◌, Option, none, some, ◌==◌, string_eq,
  ltb, if◌then◌else◌,
}
use tracearr.Prelude.Lists.{Bytes, length}
use tracearr.Event.{Event, Source, nzbget, sabnzbd}
use tracearr.Config.{SourcesConfig}
use tracearr.Store.{Store}
use tracearr.Engine.Calls.{Context, Builder}
use tracearr.Engine.State.{Engine}
use tracearr.Metrics.{Metrics, count_webhook, if_enabled}
use tracearr.Parsers.Result.{Parsed}
use tracearr.Receiver.Handlers.{
  Body, received, too_large, broken, Request, Response, handle_overseerr, handle_script, handle_arr,
}

-- The parsers of the package source, each after the decoding of its payload.
pub record Sources : Type 0 where
  pub parse_overseerr : Bool → Bytes → Parsed (Option Event)
  pub parse_sonarr : Bytes → Parsed (List Event)
  pub parse_radarr : Bytes → Parsed (List Event)
  pub parse_download : Source → Bytes → Parsed (List Event)

-- The dependencies; `metrics` is none for noopMetrics, and `scrapes` where a scrape handler is set.
pub record Server : Type 0 where
  pub sources : SourcesConfig
  pub metrics : Option Metrics
  pub scrapes : Bool

unfoldable pub new_server : SourcesConfig → Server
new_server sources = record { sources = sources; metrics = none; scrapes = false }

unfoldable pub set_metrics : Option Metrics → Server → Server
set_metrics m s = record s { metrics = m }

unfoldable pub set_scrape_handler : Bool → Server → Server
set_scrape_handler scrapes s = record s { scrapes = scrapes }

pub data Route : Type 0 where
  webhook_overseerr webhook_jellyseerr webhook_sonarr webhook_radarr : Route
  script_nzbget script_sabnzbd healthz metrics_page : Route

-- What the mux makes of a path: a route with its method.
unfoldable pub route_of : Bool → String → Option (String × Route)
route_of scrapes path =
    if path == "/webhook/overseerr"
    then some ("POST", webhook_overseerr)
    else if path == "/webhook/jellyseerr"
    then some ("POST", webhook_jellyseerr)
    else if path == "/webhook/sonarr"
    then some ("POST", webhook_sonarr)
    else if path == "/webhook/radarr"
    then some ("POST", webhook_radarr)
    else if path == "/script/nzbget"
    then some ("POST", script_nzbget)
    else if path == "/script/sabnzbd"
    then some ("POST", script_sabnzbd)
    else if path == "/healthz"
    then some ("GET", healthz)
    else if path == "/metrics"
    then (if scrapes then some ("GET", metrics_page) else none)
    else none

unfoldable pub allows : String → String → Bool
allows pattern method = pattern == method || (pattern == "GET" && method == "HEAD")

-- A request as it comes in; `complete` is false where the connection breaks off.
pub record HttpRequest : Type 0 where
  pub method : String
  pub path : String
  pub context : Context
  pub authorization : Bytes
  pub signature : Bytes
  pub content : Bytes
  pub complete : Bool

-- payloadCap: reading past the cap is an error.
unfoldable pub payload_cap : ℕ → HttpRequest → Body
payload_cap max_bytes r =
    if ltb max_bytes (length r.content)
    then too_large
    else if r.complete
    then received r.content
    else broken

unfoldable pub capped : HttpRequest → Request
unfolding payload_cap
capped r = record {
  context = r.context;
  authorization = r.authorization;
  signature = r.signature;
  body = payload_cap (2 ^ 20) r;
}

-- The answer: a webhook's, the text of /healthz, the page of the scrape handler, or the mux's own.
pub data Answer : Type 0 where
  answered : Response → Answer
  ok_text scraped not_found method_not_allowed : Answer

module _ (B : Builder) (trim_space : Bytes → Bytes) (hmac_sha256 : Bytes → Bytes → Bytes)
    (p : Sources) {S : Store} where
  -- the deferred CountWebhook
  unfoldable pub counted : String → Server → Response × Engine S → Answer × (Server × Engine S)
  counted source s (response, e) = (
    answered response,
    (
      record s {
        metrics = if_enabled (count_webhook source response.event_type response.result) s.metrics;
      },
      e,
    ),
  )

  -- the handler of a route
  unfoldable pub serve_route : Route → Request → Server → Engine S → Answer × (Server × Engine S)
  unfolding counted
  serve_route webhook_overseerr r s e =
      counted "overseerr" s (handle_overseerr B s.sources.overseerr (p.parse_overseerr false) r e)
  serve_route webhook_jellyseerr r s e =
      counted "jellyseerr" s (handle_overseerr B s.sources.jellyseerr (p.parse_overseerr true) r e)
  serve_route webhook_sonarr r s e =
      counted "sonarr" s (handle_arr B trim_space hmac_sha256 s.sources.sonarr p.parse_sonarr r e)
  serve_route webhook_radarr r s e =
      counted "radarr" s (handle_arr B trim_space hmac_sha256 s.sources.radarr p.parse_radarr r e)
  serve_route script_nzbget r s e =
      counted "nzbget" s (handle_script B s.sources.nzbget (p.parse_download nzbget) r e)
  serve_route script_sabnzbd r s e =
      counted "sabnzbd" s (handle_script B s.sources.sabnzbd (p.parse_download sabnzbd) r e)
  serve_route healthz r s e = (ok_text, (s, e))
  serve_route metrics_page r s e = (scraped, (s, e))

  -- Mux, with the middlewares
  unfoldable pub serve : HttpRequest → Server → Engine S → Answer × (Server × Engine S)
  unfolding route_of allows capped serve_route
  serve r s e = elim (route_of s.scrapes r.path) [
    | none ↦ (not_found, (s, e))
    | some (pattern, route) ↦
        if allows pattern r.method
        then serve_route route (capped r) s e
        else (method_not_allowed, (s, e))
  ]

  -- one request after the other
  unfoldable pub serve_all : List HttpRequest → Server → Engine S → Server × Engine S
  unfolding serve
  serve_all [] s e = (s, e)
  serve_all (r ∷ rest) s e = let after = (serve r s e).1 in serve_all rest after.0 after.1
