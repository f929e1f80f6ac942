-- ===== src/Examples/Webhooks.antt =====
-- internal/receiver: deliveries to the handlers.
use tracearr.Prelude.{◌≡◌, refl, true, List, [], ◌∷◌, Option, some, ◌⊎◌, string_eq}
use tracearr.Prelude.Text.{runes}
use tracearr.Event.{Event}
use tracearr.Engine.Calls.{Context}
use tracearr.Engine.Titles.{has_prefix}
use tracearr.Parsers.Result.{Parsed, parsed}
use tracearr.Receiver.Auth.{
  bytes_eq, drop, trim_prefix, hex_digit, hex_decode, verify_bearer, verify_hmac_sha256,
}
use tracearr.Receiver.Handlers.{Request, received, handle_overseerr, handle_script, handle_arr}
use tracearr.Receiver.Accepts.{
  Rejects, Reads, Parses, ParsesOne, handle_overseerr-cases, handle_script-cases, handle_arr-cases,
}
use tracearr.Config.{AppSource}
use tracearr.Prelude.Lists.{Bytes}
use tracearr.Examples.Settings.{no_source}
use tracearr.Examples.{numbering, opening, starting, fresh}

abbrev app : AppSource
app = record no_source {
  enabled = true;
  webhook_secret = runes "key";
  script_token = runes "token";
}

abbrev delivery : Request
delivery = record {
  context = Context.todo;
  authorization = runes "Bearer token";
  signature = runes "sha256=0aFf";
  body = received (runes "body");
}

abbrev unspaced : Bytes → Bytes
unspaced s = s

abbrev mac : Bytes → Bytes → Bytes
mac secret body = 10 ∷ 255 ∷ []

verify_bearer_lem : verify_bearer (runes "Bearer token") (runes "token") ≡ true
unfolding verify_bearer has_prefix drop bytes_eq
verify_bearer_lem = refl

verify_hmac_sha256_lem :
    verify_hmac_sha256 unspaced mac (runes "sha256=0aFf") (runes "key") (runes "body") ≡ true
unfolding verify_hmac_sha256 trim_prefix hex_decode hex_digit has_prefix drop bytes_eq
verify_hmac_sha256_lem = refl

abbrev one_start : Bytes → Parsed (List Event)
one_start body = parsed (starting ∷ [])

abbrev one_request : Bytes → Parsed (Option Event)
one_request body = parsed (some opening)

handle_script-cases_example :
    let answer = handle_script numbering app one_start delivery fresh in
    Rejects numbering fresh answer
    ⊎ ((true ≡ true)
        × ((verify_bearer delivery.authorization app.script_token ≡ true)
            × Reads numbering delivery.body (Parses numbering one_start Context.todo fresh) answer))
handle_script-cases_example = handle_script-cases numbering app one_start delivery fresh

handle_overseerr-cases_example :
    let answer = handle_overseerr numbering app one_request delivery fresh in
    Rejects numbering fresh answer
    ⊎ ((true ≡ true)
        × ((verify_bearer delivery.authorization app.webhook_secret ≡ true)
            × Reads numbering delivery.body
                (ParsesOne numbering one_request Context.todo fresh)
                answer))
handle_overseerr-cases_example = handle_overseerr-cases numbering app one_request delivery fresh

handle_arr-cases_example :
    let answer = handle_arr numbering unspaced mac app one_start delivery fresh in
    Rejects numbering fresh answer
    ⊎ ((true ≡ true)
        × Reads numbering delivery.body
            (λ body answer.
              (verify_hmac_sha256 unspaced mac delivery.signature app.webhook_secret body ≡ true)
              × Parses numbering one_start Context.todo fresh body answer)
            answer)
handle_arr-cases_example = handle_arr-cases numbering unspaced mac app one_start delivery fresh
