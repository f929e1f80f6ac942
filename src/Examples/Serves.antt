-- ===== src/Examples/Serves.antt =====
-- internal/receiver/handlers.go and internal/exporter/otlp.go: a request, and two headers.
use tracearr.Prelude.{◌≡◌, refl, true, [], ◌∷◌, none, nat_eq}
use tracearr.Prelude.Lists.{Bytes, contains}
use tracearr.Prelude.Text.{runes}
use tracearr.Engine.Calls.{Context}
use tracearr.Parsers.Result.{parsed}
use tracearr.Exporter.{bytes_key, parse_headers}
use tracearr.Exporter.Headers.{header_text, headers_text, insert_all, parse_headers-headers_text}
use tracearr.Receiver.Routes.{Sources, HttpRequest}
use tracearr.Config.{SourcesConfig}
use tracearr.Examples.{opening}
use tracearr.Examples.Settings.{settings}

abbrev as_it_is : Bytes → Bytes
as_it_is s = s

abbrev no_mac : Bytes → Bytes → Bytes
no_mac key body = []

abbrev one_request : Sources
one_request = record {
  parse_overseerr = λ jellyseerr body. parsed none;
  parse_sonarr = λ body. parsed (opening ∷ []);
  parse_radarr = λ body. parsed [];
  parse_download = λ source body. parsed [];
}

abbrev posted : HttpRequest
posted = record {
  method = "POST";
  path = "/webhook/sonarr";
  context = Context.todo;
  authorization = [];
  signature = [];
  content = runes "body";
  complete = true;
}

-- Sonarr is enabled; its secret is empty, so that each signature is refused.
abbrev listening : SourcesConfig
listening = record settings.sources { sonarr = record settings.sources.sonarr { enabled = true } }

abbrev token : Bytes × Bytes
token = (runes "x-token", runes "abc")

abbrev pair : Bytes × Bytes
pair = (runes "x-foo", runes "bar=baz")

parse_headers-headers_text_example :
    parse_headers as_it_is (headers_text token (pair ∷ [])) ≡ insert_all (token ∷ pair ∷ []) []
unfolding contains header_text
parse_headers-headers_text_example =
    parse_headers-headers_text as_it_is token (pair ∷ [])
      (record {
        named = refl;
        no_equals = refl;
        no_comma = refl;
        trimmed = refl;
        name_trimmed = refl;
        value_trimmed = refl;
      })
      (
        record {
          named = refl;
          no_equals = refl;
          no_comma = refl;
          trimmed = refl;
          name_trimmed = refl;
          value_trimmed = refl;
        },
        tt,
      )
