-- ===== src/Pollers/Cursor.antt =====
-- internal/poller/prowlarr.go: the cursor only moves on, and keeps an entry from being emitted twice.
use tracearr.Prelude.{
  ◌≡◌, refl, false, List, [], ◌∷◌, Option, none, some, ltb, nat_beq, arith, ◌≤◌, ◌<◌, Bool-cases,
  inl, inr,
}
use tracearr.Prelude.Lists.{All}
use tracearr.Prelude.Clock.{Time}
use tracearr.Pollers.Prowlarr.{HistoryRecord, later, scan, tick}

scan-newest : (prev newest : Time) (rs : List HistoryRecord) → newest ≤ (scan prev newest rs).1
unfolding scan
scan-newest prev newest [] = omega arith
scan-newest prev newest (r ∷ rs) =
    ground (arith, scan-newest prev (later newest r.date) rs, scan-newest prev newest rs)

-- The latest date is the one given, or after the cursor.
scan-after :
    (prev newest : Time) (rs : List HistoryRecord)
    → nat_beq (scan prev newest rs).1 newest ≡ false
    → prev < (scan prev newest rs).1
unfolding scan
scan-after prev newest [] moved = ground (arith, moved)
scan-after prev newest (r ∷ rs) moved = ground (
  arith,
  moved,
  scan-after prev (later newest r.date) rs,
  scan-after prev newest rs,
  scan-newest prev (later newest r.date) rs,
)

-- Every entry is at the cursor or before, or not after the latest date.
scan-covers :
    (prev newest bound : Time) (rs : List HistoryRecord)
    → prev ≤ bound
    → (scan prev newest rs).1 ≤ bound
    → All (λ (r : HistoryRecord). r.date ≤ bound) rs
unfolding scan
scan-covers prev newest bound [] before last = tt
scan-covers prev newest bound (r ∷ rs) before last = elim (Bool-cases (ltb prev r.date)) [
  | inl is_new ↦ (
    ground (arith, is_new, last, scan-newest prev (later newest r.date) rs),
    scan-covers prev (later newest r.date) bound rs before (ground (arith, is_new, last)),
  )
  | inr old ↦ (
    ground (arith, old, before),
    scan-covers prev newest bound rs before (ground (arith, old, last)),
  )
]

scan-silent :
    (cursor newest : Time) (rs : List HistoryRecord)
    → All (λ (r : HistoryRecord). r.date ≤ cursor) rs
    → scan cursor newest rs ≡ ([], newest)
unfolding scan
scan-silent cursor newest [] all = refl
scan-silent cursor newest (r ∷ rs) all = ground (arith, all.0, scan-silent cursor newest rs all.1)

-- The cursor never moves back.
pub tick-advances :
    (cursor : Time) (response : Option (List HistoryRecord)) → cursor ≤ (tick cursor response).1
unfolding tick
tick-advances cursor none = omega arith
tick-advances cursor (some rs) = ground (arith, scan-after cursor 0 rs)

-- A second tick that gets the same answer emits nothing and leaves the cursor as it is.
pub tick-tick :
    (cursor : Time) (response : Option (List HistoryRecord))
    → let next = (tick cursor response).1 in tick next response ≡ ([], next)
unfolding tick
tick-tick cursor none = refl
tick-tick cursor (some rs) =
    let next = (tick cursor (some rs)).1 in
    let last = (scan cursor 0 rs).1 in
    let covered : last ≤ next = ground arith in
    let silent =
      scan-silent next 0 rs
        (scan-covers cursor 0 next rs (tick-advances cursor (some rs)) covered) in
    cc silent
