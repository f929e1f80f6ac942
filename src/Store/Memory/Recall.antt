-- ===== src/Store/Memory/Recall.antt =====
-- internal/correlate/store.go: closed traces in `memoryStore`.
use tracearr.Prelude.{◌≡◌, refl, true, false, none, some, arith, beq_refl}
use tracearr.Prelude.Clock.{Time, is_expired}
use tracearr.Prelude.Int.{ℤ}
use tracearr.Prelude.Map
use tracearr.Prelude.Map.{get-insert, get-delete}
use tracearr.Event.{MediaKey, key_eq, key_beq, Outcome, series_key, is_tv}
use tracearr.Store.Interface.{RecallLaws}
use tracearr.Store.Records.{TraceId, ClosedTrace}
use tracearr.Store.Memory.{
  MemoryStore, memory_store, put, delete, remember_closed, recall_closed, find_closed,
}

recall-remember_closed :
    (m : MemoryStore) (k : MediaKey) (tid : TraceId) (n : ℤ) (o : Outcome) (when now : Time)
    → is_expired m.recall_ttl now when ≡ false
    → (recall_closed (remember_closed m k tid n o when) k now).0
      ≡ some (record { trace_id = tid; attempt = n; outcome = o; closed_at = when })
unfolding recall_closed remember_closed find_closed
recall-remember_closed m k tid n o when now kept = ground (
  arith,
  get-insert k k (record { trace_id = tid; attempt = n; outcome = o; closed_at = when })
      (Map.drop_if (λ (c : ClosedTrace). is_expired m.recall_ttl when c.closed_at) m.closed),
  beq_refl k,
)

recall-remember_closed_expired :
    (m : MemoryStore) (k : MediaKey) (tid : TraceId) (n : ℤ) (o : Outcome) (when now : Time)
    → is_expired m.recall_ttl now when ≡ true
    → (recall_closed (remember_closed m k tid n o when) k now).0 ≡ none
unfolding recall_closed remember_closed find_closed
recall-remember_closed_expired m k tid n o when now expired = ground (
  arith,
  get-insert k k (record { trace_id = tid; attempt = n; outcome = o; closed_at = when })
      (Map.drop_if (λ (c : ClosedTrace). is_expired m.recall_ttl when c.closed_at) m.closed),
  beq_refl k,
)

recall-recall_closed_found :
    (m : MemoryStore) (k : MediaKey) (now : Time) (c : ClosedTrace)
    → (recall_closed m k now).0 ≡ some c
    → (recall_closed (recall_closed m k now).1 k now).0 ≡ some c
unfolding recall_closed
recall-recall_closed_found m k now c h = ground arith

-- A closed trace that memoryStore has just remembered is recalled under its own key until the recall limit has
-- passed since it was closed; if it has passed, the answer is none, also where a record of the whole series
-- is there. A closed trace that was recalled is recalled again at the same time.
pub memory_store-RecallLaws :
    (R : RecallLaws memory_store) × ((m : MemoryStore) (when now : Time)
      → R.expires m when now ≡ is_expired m.recall_ttl now when)
unfolding put delete
memory_store-RecallLaws = (
  record {
    expires = λ m when now. is_expired m.recall_ttl now when;
    recall-remember_closed = recall-remember_closed;
    recall-remember_closed_expired = recall-remember_closed_expired;
    recall-recall_closed_found = recall-recall_closed_found;
    expires-put = λ m t when now. refl;
    expires-delete = λ m k when now. refl;
  },
  λ m when now. refl,
)

-- An episode whose own record has expired is not linked to its series' record, which may be fresh:
-- nothing is recalled. The expired record is dropped, so that the next recall finds the series'.
pub recall_expired_episode :
    (m : MemoryStore) (k : MediaKey) (now : Time) (own series : ClosedTrace)
    → is_tv k ≡ true
    → key_beq k (series_key k) ≡ false
    → Map.get k m.closed ≡ some own
    → is_expired m.recall_ttl now own.closed_at ≡ true
    → Map.get (series_key k) m.closed ≡ some series
    → is_expired m.recall_ttl now series.closed_at ≡ false
    → ((recall_closed m k now).0 ≡ none)
      × ((recall_closed (recall_closed m k now).1 k now).0 ≡ some series)
unfolding recall_closed find_closed
recall_expired_episode m k now own series tv below here old there fresh =
    ground (arith, get-delete k k m.closed, get-delete k (series_key k) m.closed, beq_refl k)
