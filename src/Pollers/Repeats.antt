-- ===== src/Pollers/Repeats.antt =====
-- internal/poller/queue.go: an item is not reported twice at the same status.
use tracearr.Prelude.{
  ◌≡◌, refl, Bool, true, false, not, ◌&&◌, ◌||◌, String, List, [], ◌∷◌, some, ◌==◌, string_eq,
  arith, beq_refl,
}
use tracearr.Prelude.Lists.{All}
use tracearr.Prelude.Map
use tracearr.Prelude.Map.{Map, get-insert, get-delete, get-select}
use tracearr.Pollers.Queue.{QueueRecord, is_stalled, is_reported, report, report_all, is_live, tick}

-- Nothing is to be reported of the record.
abbrev pub is_settled : Map String String → QueueRecord → Bool
is_settled seen r =
    r.download_id == ""
    || not (is_stalled r.status)
    || is_reported (Map.get r.download_id seen) r.status

-- The id stands in none of the records.
abbrev pub is_absent : String → List QueueRecord → Bool
is_absent id [] = true
is_absent id (r ∷ rest) = not (r.download_id == id) && is_absent id rest

-- No two records have the same id.
abbrev pub are_distinct : List QueueRecord → Bool
are_distinct [] = true
are_distinct (r ∷ rest) = is_absent r.download_id rest && are_distinct rest

get-report :
    (seen : Map String String) (r : QueueRecord) (id : String)
    → (r.download_id == id) ≡ false
    → Map.get id (report seen r).1 ≡ Map.get id seen
unfolding report
get-report seen r id other =
    ground
      (arith, other, get-delete r.download_id id seen, get-insert r.download_id id r.status seen)

get-report_all :
    (seen : Map String String) (rs : List QueueRecord) (id : String)
    → is_absent id rs ≡ true
    → Map.get id (report_all seen rs).1 ≡ Map.get id seen
unfolding report_all
get-report_all seen [] id absent = refl
get-report_all seen (r ∷ rs) id absent =
    ground (arith, absent, get-report_all (report seen r).1 rs id, get-report seen r id)

report-settled :
    (seen : Map String String) (r : QueueRecord) → is_settled (report seen r).1 r ≡ true
unfolding report
report-settled seen r = ground (
  arith,
  get-insert r.download_id r.download_id r.status seen,
  beq_refl r.download_id,
  beq_refl r.status,
)

report_all-settled :
    (seen : Map String String) (rs : List QueueRecord)
    → are_distinct rs ≡ true
    → All (λ (r : QueueRecord). is_settled (report_all seen rs).1 r ≡ true) rs
unfolding report_all
report_all-settled seen [] distinct = tt
report_all-settled seen (r ∷ rs) distinct = (
  ground
      (arith, distinct, report-settled seen r, get-report_all (report seen r).1 rs r.download_id),
  report_all-settled (report seen r).1 rs (ground (arith, distinct)),
)

report-silent :
    (seen : Map String String) (r : QueueRecord) → is_settled seen r ≡ true → (report seen r).0 ≡ []
unfolding report
report-silent seen r settled = ground (arith, settled)

settled-report :
    (seen : Map String String) (r : QueueRecord) (rs : List QueueRecord)
    → is_absent r.download_id rs ≡ true
    → All (λ (q : QueueRecord). is_settled seen q ≡ true) rs
    → All (λ (q : QueueRecord). is_settled (report seen r).1 q ≡ true) rs
settled-report seen r [] absent all = tt
settled-report seen r (q ∷ rs) absent all = (
  ground (
    arith,
    absent,
    all.0,
    get-report seen r q.download_id,
    string_eq.beq_iff r.download_id q.download_id,
    string_eq.beq_iff q.download_id r.download_id,
  ),
  settled-report seen r rs (ground (arith, absent)) all.1,
)

report_all-silent :
    (seen : Map String String) (rs : List QueueRecord)
    → are_distinct rs ≡ true
    → All (λ (r : QueueRecord). is_settled seen r ≡ true) rs
    → (report_all seen rs).0 ≡ []
unfolding report_all
report_all-silent seen [] distinct all = refl
report_all-silent seen (r ∷ rs) distinct all = ground (
  arith,
  report-silent seen r all.0,
  report_all-silent (report seen r).1 rs (ground (arith, distinct))
      (settled-report seen r rs (ground (arith, distinct)) all.1),
)

-- What is dropped at the end of a tick is about no record of the queue.
settled-select :
    (seen : Map String String) (records rs : List QueueRecord)
    → ((id : String) → is_live rs id ≡ true → is_live records id ≡ true)
    → All (λ (r : QueueRecord). is_settled seen r ≡ true) rs
    → All
        (λ (r : QueueRecord).
          is_settled (Map.select (λ id status. is_live records id) seen) r ≡ true)
        rs
unfolding is_live
settled-select seen records [] sub all = tt
settled-select seen records (r ∷ rs) sub all = (
  ground (
    arith,
    all.0,
    sub r.download_id,
    beq_refl r.download_id,
    get-select (λ id status. is_live records id) r.download_id seen,
  ),
  settled-select seen records rs (λ id live. sub id (ground (arith, live))) all.1,
)

-- A second tick that gets the same records, no two of them of the same download, reports nothing.
pub tick-repeated :
    (seen : Map String String) (records : List QueueRecord)
    → are_distinct records ≡ true
    → (tick (tick seen (some records)).1 (some records)).0 ≡ []
unfolding tick
tick-repeated seen records distinct =
    let last = (report_all seen records).1 in
    report_all-silent (Map.select (λ id status. is_live records id) last) records distinct (
      settled-select last records records (λ id live. live)
        (report_all-settled seen records distinct))
