-- ===== src/Pollers/Loops.antt =====
-- internal/poller: the pollers and their loops. `Run` ticks until the context is cancelled; it is the
-- list of what the ticks get, one answer for each.
use tracearr.Prelude.{
  ◌<◌, ◌≤◌, String, List, [], ◌∷◌, ◌++◌, Option, none, some, if◌then◌else◌, ltb, arith, Bool-cases,
  inl, inr,
}
use tracearr.Prelude.Int.{ℤ, pos, is_positive}
use tracearr.Prelude.Lists.{Bytes, All}
use tracearr.Prelude.Clock.{Time}
use tracearr.Prelude.Map.{Map}
use tracearr.Pollers.Prowlarr
use tracearr.Pollers.Prowlarr.{HistoryRecord, later, scan}
use tracearr.Pollers.Queue
use tracearr.Pollers.Queue.{QueueRecord, Issue}
use tracearr.Pollers.Cursor.{tick-advances}

-- 30 seconds where the interval is not positive
unfoldable pub tick_interval : ℤ → ℤ
tick_interval interval = if is_positive interval then interval else pos 30000000000

pub record ProwlarrPoller : Type 0 where
  pub base_url : String
  pub api_key : Bytes
  pub interval : ℤ
  pub cursor : Time

-- NewProwlarrPoller; the cursor is the zero time until `Run`.
unfoldable pub new_prowlarr_poller : String → Bytes → ℤ → ProwlarrPoller
new_prowlarr_poller base_url api_key interval = record {
  base_url = base_url;
  api_key = api_key;
  interval = interval;
  cursor = 0;
}

-- Run up to its loop, at an instant
unfoldable pub anchor : Time → ProwlarrPoller → ProwlarrPoller
unfolding tick_interval
anchor now p = record p { interval = tick_interval p.interval; cursor = now }

-- the searches that the ticks emit, and the poller after them
unfoldable pub prowlarr_loop :
    ProwlarrPoller → List (Option (List HistoryRecord)) → List HistoryRecord × ProwlarrPoller
prowlarr_loop p [] = ([], p)
prowlarr_loop p (answer ∷ rest) =
    let (found, cursor) = Prowlarr.tick p.cursor answer in
    let (others, last) = prowlarr_loop (record p { cursor = cursor }) rest in
    (found ++ others, last)

pub record QueuePoller : Type 0 where
  pub app : String
  pub base_url : String
  pub api_key : Bytes
  pub interval : ℤ
  pub seen : Map String String

unfoldable pub new_queue_poller : String → String → Bytes → ℤ → QueuePoller
new_queue_poller app base_url api_key interval = record {
  app = app;
  base_url = base_url;
  api_key = api_key;
  interval = interval;
  seen = [];
}

-- the issues that the ticks report, each with the instant of its tick
unfoldable pub queue_loop :
    QueuePoller → List (Time × Option (List QueueRecord)) → List (Time × List Issue) × QueuePoller
queue_loop p [] = ([], p)
queue_loop p ((now, answer) ∷ rest) =
    let (found, seen) = Queue.tick p.seen answer in
    let (others, last) = queue_loop (record p { seen = seen }) rest in ((now, found) ∷ others, last)

All-found :
    (prev newest bound : Time) (rs : List HistoryRecord)
    → bound ≤ prev
    → All (λ (r : HistoryRecord). bound < r.date) (scan prev newest rs).0
unfolding scan
All-found prev newest bound [] h = tt
All-found prev newest bound (r ∷ rs) h = elim (Bool-cases (ltb prev r.date)) [
  | inl after ↦
      rw (after, scan) (ground (arith, after, h), All-found prev (later newest r.date) bound rs h)
  | inr before ↦ rw (before, scan) (All-found prev newest bound rs h)
]

All-tick :
    (cursor bound : Time) (answer : Option (List HistoryRecord))
    → bound ≤ cursor
    → All (λ (r : HistoryRecord). bound < r.date) (Prowlarr.tick cursor answer).0
unfolding Prowlarr.tick
All-tick cursor bound none h = tt
All-tick cursor bound (some rs) h = All-found cursor 0 bound rs h

All-append :
    (bound : Time) (xs ys : List HistoryRecord)
    → All (λ (r : HistoryRecord). bound < r.date) xs
    → All (λ (r : HistoryRecord). bound < r.date) ys
    → All (λ (r : HistoryRecord). bound < r.date) (xs ++ ys)
All-append bound [] ys hx hy = hy
All-append bound (x ∷ xs) ys hx hy = (hx.0, All-append bound xs ys hx.1 hy)

-- Whatever Prowlarr answers, a poller emits no search of the time before its cursor, and so none from
-- before it was started.
pub All-prowlarr_loop :
    (p : ProwlarrPoller) (bound : Time) (answers : List (Option (List HistoryRecord)))
    → bound ≤ p.cursor
    → All (λ (r : HistoryRecord). bound < r.date) (prowlarr_loop p answers).0
unfolding prowlarr_loop
All-prowlarr_loop p bound [] h = tt
All-prowlarr_loop p bound (answer ∷ rest) h =
    All-append bound _ _ (All-tick p.cursor bound answer h) (
      All-prowlarr_loop (record p { cursor = (Prowlarr.tick p.cursor answer).1 }) bound rest
        (omega (arith, h, tick-advances p.cursor answer)))
