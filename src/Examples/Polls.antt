-- ===== src/Examples/Polls.antt =====
-- internal/poller: ticks on a search history.
use tracearr.Prelude.{◌≡◌, refl, List, [], ◌∷◌, some}
use tracearr.Pollers.Prowlarr.{HistoryRecord, scan, tick}
use tracearr.Prelude.Map
use tracearr.Pollers.Queue
use tracearr.Pollers.Queue.{QueueRecord, report_all, report, is_stalled, message_of}
use tracearr.Pollers.Repeats.{tick-repeated}
use tracearr.Pollers.Cursor.{tick-tick}

abbrev history : List HistoryRecord
history =
    record { date = 300; indexer = "X"; query = "new"; elapsed_ms = "5" }
    ∷ record { date = 100; indexer = "X"; query = "old"; elapsed_ms = "5" }
    ∷ []

tick_lem : (tick 200 (some history)).1 ≡ 300
unfolding tick scan
tick_lem = refl

tick-tick_example : let next = (tick 200 (some history)).1 in tick next (some history) ≡ ([], next)
tick-tick_example = tick-tick 200 (some history)

abbrev queue : List QueueRecord
queue =
    record {
      download_id = "x";
      status = "warning";
      status_messages = ("no space" ∷ []) ∷ [];
      error_message = "";
    }
    ∷ record { download_id = "y"; status = "downloading"; status_messages = []; error_message = "" }
    ∷ []

queue_lem :
    (Queue.tick [] (some queue)).0
    ≡ record { download_id = "x"; status = "warning"; message = "no space" } ∷ []
unfolding Queue.tick report_all report is_stalled message_of Map.get
queue_lem = refl

tick-repeated_example : (Queue.tick (Queue.tick [] (some queue)).1 (some queue)).0 ≡ []
tick-repeated_example = tick-repeated [] queue refl
