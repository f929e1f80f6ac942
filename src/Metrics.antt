-- ===== src/Metrics.antt =====
-- internal/metrics: the instruments, and what each observation records. A nil *Metrics is `none`. A
-- duration stays its number of nanoseconds, where the code records its seconds.
use tracearr.Prelude.{◌&&◌, Bool, true, String, List, [], ◌∷◌, Option, none, some, if◌then◌else◌}
use tracearr.Prelude.Int.{ℤ, is_positive}
use tracearr.Engine.Calls.{
  Metric, observe_request, observe_grab, observe_download, observe_import, count_attempt,
  adjust_in_flight, Gauge,
}

-- a sample with the values of its attributes
abbrev pub Sample : Type 0
Sample = List String × ℤ

-- The samples of each histogram, and the additions to each counter, newest first.
pub record Metrics : Type 0 where
  pub request_duration : List Sample
  pub grab_duration : List Sample
  pub download_duration : List Sample
  pub import_duration : List Sample
  pub attempts : List (List String)
  pub in_flight : List (Gauge × ℤ)
  pub webhook_received : List (List String)

-- the instruments, in the order in which they are created
unfoldable pub instruments : List String
instruments =
    "tracearr_request_duration_seconds" ∷ "tracearr_grab_duration_seconds"
    ∷ "tracearr_download_duration_seconds" ∷ "tracearr_import_duration_seconds"
    ∷ "tracearr_attempts_total" ∷ "tracearr_in_flight" ∷ "tracearr_webhook_received_total" ∷ []

unfoldable pub creates_all : (String → Bool) → List String → Bool
creates_all creates [] = true
creates_all creates (name ∷ rest) = creates name && creates_all creates rest

-- New, with whether the exporter and each instrument can be created; none is an error
unfoldable pub new_metrics : Bool → (String → Bool) → Option Metrics
unfolding creates_all instruments
new_metrics exporter_ok creates =
    if exporter_ok && creates_all creates instruments
    then some (record {
      request_duration = [];
      grab_duration = [];
      download_duration = [];
      import_duration = [];
      attempts = [];
      in_flight = [];
      webhook_received = [];
    })
    else none

-- the guard `duration <= 0`
unfoldable pub record_positive : List String → ℤ → List Sample → List Sample
record_positive labels duration samples =
    if is_positive duration then (labels, duration) ∷ samples else samples

unfoldable pub observe : Metric → Metrics → Metrics
unfolding record_positive
observe (observe_request media_type source outcome duration) m = record m {
  request_duration = (media_type ∷ source ∷ outcome ∷ [], duration) ∷ m.request_duration;
}
observe (observe_grab media_type indexer duration) m = record m {
  grab_duration = record_positive (media_type ∷ indexer ∷ []) duration m.grab_duration;
}
observe (observe_download client protocol duration) m = record m {
  download_duration = record_positive (client ∷ protocol ∷ []) duration m.download_duration;
}
observe (observe_import app duration) m = record m {
  import_duration = record_positive (app ∷ []) duration m.import_duration;
}
observe (count_attempt media_type outcome upgrade_reason) m = record m {
  attempts = (media_type ∷ outcome ∷ upgrade_reason ∷ []) ∷ m.attempts;
}
observe (adjust_in_flight phase delta) m = record m { in_flight = (phase, delta) ∷ m.in_flight }

unfoldable pub count_webhook : String → String → String → Metrics → Metrics
count_webhook source event_type result m = record m {
  webhook_received = (source ∷ event_type ∷ result ∷ []) ∷ m.webhook_received;
}

-- Every method does nothing on nil.
unfoldable pub if_enabled : (Metrics → Metrics) → Option Metrics → Option Metrics
if_enabled f none = none
if_enabled f (some m) = some (f m)

-- the engine's calls, which it keeps newest first
unfoldable pub observe_all : List Metric → Option Metrics → Option Metrics
unfolding if_enabled observe
observe_all [] m = m
observe_all (c ∷ older) m = if_enabled (observe c) (observe_all older m)
