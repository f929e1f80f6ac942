-- ===== src/Pollers/Queue.antt =====
-- internal/poller/queue.go: `tick`, which reports the items of the download queue that are stalled.
use tracearr.Prelude.{
  Bool, false, not, ◌&&◌, ◌||◌, String, List, [], ◌∷◌, ◌++◌, Option, none, some, ◌==◌, string_eq,
  if◌then◌else◌,
}
use tracearr.Prelude.Clock.{Time}
use tracearr.Prelude.Map
use tracearr.Prelude.Map.{Map}
use tracearr.Store.{Store}
use tracearr.Engine.State.{Engine}
use tracearr.Engine.Queue.{note_queue_issue}

pub record QueueRecord : Type 0 where
  pub download_id : String
  pub status : String
  pub status_messages : List (List String)
  pub error_message : String

-- What the observer is told.
pub record Issue : Type 0 where
  pub download_id : String
  pub status : String
  pub message : String

unfoldable pub is_stalled : String → Bool
is_stalled s = s == "warning" || s == "failed" || s == "delay"

-- the error message, or else the first message of the first status message
unfoldable pub message_of : String → List (List String) → String
message_of error ((m ∷ ms) ∷ rest) = if error == "" then m else error
message_of error _ = error

-- The status that was reported last.
abbrev pub is_reported : Option String → String → Bool
is_reported none status = false
is_reported (some prev) status = prev == status

-- One record: what is reported, and what is remembered.
unfoldable pub report : Map String String → QueueRecord → List Issue × Map String String
unfolding is_stalled message_of
report seen r =
    if r.download_id == ""
    then ([], seen)
    else if not (is_stalled r.status)
    then ([], Map.delete r.download_id seen)
    else if is_reported (Map.get r.download_id seen) r.status
    then ([], seen)
    else (
      record {
        download_id = r.download_id;
        status = r.status;
        message = message_of r.error_message r.status_messages;
      }
          ∷ [],
      Map.insert r.download_id r.status seen,
    )

-- The records in order.
unfoldable pub report_all : Map String String → List QueueRecord → List Issue × Map String String
report_all seen [] = ([], seen)
report_all seen (r ∷ rest) =
    let (first, seen') = report seen r in
    let (others, last) = report_all seen' rest in (first ++ others, last)

-- live[id]
unfoldable pub is_live : List QueueRecord → String → Bool
is_live [] id = false
is_live (r ∷ rest) id = r.download_id == id && not (id == "") || is_live rest id

-- What a tick reports, and what is remembered of the items that are still in the queue.
unfoldable pub tick : Map String String → Option (List QueueRecord) → List Issue × Map String String
tick seen none = ([], seen)
tick seen (some records) =
    let (issues, last) = report_all seen records in
    (issues, Map.select (λ id status. is_live records id) last)

module _ {S : Store} where
  unfoldable pub note_all : List Issue → Time → Engine S → Engine S
  note_all [] now e = e
  note_all (i ∷ rest) now e =
      note_all rest now (note_queue_issue i.download_id i.status i.message now e)
