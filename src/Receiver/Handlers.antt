-- ===== src/Receiver/Handlers.antt =====
-- internal/receiver/handlers.go: `handleOverseerr`, `handleArr` and `handleScript`. A handler gets
-- the request as net/http hands it over, answers with a status and a text, counts the webhook, and
-- hands events to the engine. The parser is the source's, with its payload's decoder.
use tracearr.Prelude.{ℕ, not, String, List, [], ◌∷◌, Option, none, some, if◌then◌else◌}
use tracearr.Event.{Event, phase_text}
use tracearr.Store.{Store}
use tracearr.Engine.Calls.{Context, Builder}
use tracearr.Engine.State.{Engine}
use tracearr.Engine.Process.{process, process_all}
use tracearr.Parsers.Result.{Parsed, refused, parsed}
use tracearr.Config.{AppSource}
use tracearr.Prelude.Lists.{Bytes}
use tracearr.Receiver.Auth.{verify_hmac_sha256, verify_bearer}

-- What io.ReadAll makes of a body under the cap.
pub data Body : Type 0 where
  received : Bytes → Body
  too_large broken : Body

pub record Request : Type 0 where
  pub context : Context
  pub authorization : Bytes
  pub signature : Bytes
  pub body : Body

-- The answer, and the labels that CountWebhook gets beside the source.
pub record Response : Type 0 where
  pub status : ℕ
  pub message : String
  pub event_type : String
  pub result : String

abbrev pub source_disabled : Response
source_disabled = record {
  status = 404;
  message = "source disabled";
  event_type = "*";
  result = "dropped";
}

abbrev pub unauthorized : Response
unauthorized = record {
  status = 401;
  message = "unauthorized";
  event_type = "*";
  result = "unauthorized";
}

abbrev pub bad_payload : Response
bad_payload = record {
  status = 400;
  message = "bad payload";
  event_type = "*";
  result = "bad_payload";
}

abbrev pub payload_too_large : Response
payload_too_large = record bad_payload { status = 413; message = "payload too large" }

abbrev pub read_error : Response
read_error = record bad_payload { message = "read error" }

abbrev pub dropped : Response
dropped = record { status = 200; message = ""; event_type = "*"; result = "dropped" }

-- the label is the phase of the first event
unfoldable pub accepted : List Event → Response
accepted [] = dropped
accepted (ev ∷ evs) = record {
  status = 200;
  message = "";
  event_type = phase_text ev.phase;
  result = "ok";
}

module _ (B : Builder) {S : Store} where
  -- The events of a body that was parsed go to the engine in order.
  unfoldable pub deliver_events : Context → Parsed (List Event) → Engine S → Response × Engine S
  unfolding accepted
  deliver_events ctx (refused why) e = (bad_payload, e)
  deliver_events ctx (parsed evs) e = (accepted evs, process_all B ctx evs e)

  -- The one event of a body, or none.
  unfoldable pub deliver_event : Context → Parsed (Option Event) → Engine S → Response × Engine S
  unfolding accepted
  deliver_event ctx (refused why) e = (bad_payload, e)
  deliver_event ctx (parsed none) e = (dropped, e)
  deliver_event ctx (parsed (some ev)) e = (accepted (ev ∷ []), process B ctx ev e)

  -- readBody, and what follows it
  unfoldable pub with_body : Body → (Bytes → Response × Engine S) → Engine S → Response × Engine S
  with_body (received body) next e = next body
  with_body too_large next e = (payload_too_large, e)
  with_body broken next e = (read_error, e)

  -- `handleOverseerr`: the bearer token is verified before the body is read.
  unfoldable pub handle_overseerr :
      AppSource → (Bytes → Parsed (Option Event)) → Request → Engine S → Response × Engine S
  handle_overseerr app parse r e =
      if not app.enabled
      then (source_disabled, e)
      else if not (verify_bearer r.authorization app.webhook_secret)
      then (unauthorized, e)
      else with_body r.body (λ body. deliver_event r.context (parse body) e) e

  -- `handleScript`, likewise
  unfoldable pub handle_script :
      AppSource → (Bytes → Parsed (List Event)) → Request → Engine S → Response × Engine S
  handle_script app parse r e =
      if not app.enabled
      then (source_disabled, e)
      else if not (verify_bearer r.authorization app.script_token)
      then (unauthorized, e)
      else with_body r.body (λ body. deliver_events r.context (parse body) e) e

  module _ (trim_space : Bytes → Bytes) (hmac_sha256 : Bytes → Bytes → Bytes) where
    -- The signature is over the body, which is read first.
    unfoldable pub handle_signed :
        AppSource → (Bytes → Parsed (List Event)) → Request → Engine S → Bytes → Response × Engine S
    handle_signed app parse r e body =
        if not (verify_hmac_sha256 trim_space hmac_sha256 r.signature app.webhook_secret body)
        then (unauthorized, e)
        else deliver_events r.context (parse body) e

    unfoldable pub handle_arr :
        AppSource → (Bytes → Parsed (List Event)) → Request → Engine S → Response × Engine S
    handle_arr app parse r e =
        if not app.enabled
        then (source_disabled, e)
        else with_body r.body (handle_signed app parse r e) e
