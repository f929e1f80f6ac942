-- ===== src/Store/Bolt/Recall.antt =====
-- internal/correlate/store_bolt.go: closed traces in `boltStore`.
use tracearr.Prelude.{◌≡◌, refl, true, false, none, some, arith, beq_refl, Option-cases, inl, inr}
use tracearr.Prelude.Clock.{Time, is_expired}
use tracearr.Prelude.Int.{ℤ}
use tracearr.Prelude.Map.{get-insert}
use tracearr.Event.{MediaKey, key_eq, Outcome}
use tracearr.Store.Interface.{RecallLaws}
use tracearr.Store.Records.{TraceState, TraceId, ClosedTrace}
use tracearr.Store.Memory.{find_closed}
use tracearr.Store.Disk.Buckets.{Bolt}
use tracearr.Store.Disk.Codec.{marshal_trace}
use tracearr.Store.Bolt.{BoltStore, bolt_store, put, delete, remember_closed, recall_closed, commit}

module _ {D : Bolt} where
  recall-remember_closed :
      (s : BoltStore D) (k : MediaKey) (tid : TraceId) (n : ℤ) (o : Outcome) (when now : Time)
      → is_expired s.recall_ttl now when ≡ false
      → (recall_closed (remember_closed s k tid n o when) k now).0
        ≡ some (record { trace_id = tid; attempt = n; outcome = o; closed_at = when })
  unfolding recall_closed remember_closed find_closed commit
  recall-remember_closed s k tid n o when now kept = ground (
    arith,
    get-insert k k (record { trace_id = tid; attempt = n; outcome = o; closed_at = when }) s.closed,
    beq_refl k,
  )

  recall-remember_closed_expired :
      (s : BoltStore D) (k : MediaKey) (tid : TraceId) (n : ℤ) (o : Outcome) (when now : Time)
      → is_expired s.recall_ttl now when ≡ true
      → (recall_closed (remember_closed s k tid n o when) k now).0 ≡ none
  unfolding recall_closed remember_closed find_closed commit
  recall-remember_closed_expired s k tid n o when now expired = ground (
    arith,
    get-insert k k (record { trace_id = tid; attempt = n; outcome = o; closed_at = when }) s.closed,
    beq_refl k,
  )

  recall-recall_closed_found :
      (s : BoltStore D) (k : MediaKey) (now : Time) (c : ClosedTrace)
      → (recall_closed s k now).0 ≡ some c
      → (recall_closed (recall_closed s k now).1 k now).0 ≡ some c
  unfolding recall_closed
  recall-recall_closed_found s k now c h = ground arith

  recall_ttl-put : (s : BoltStore D) (t : TraceState) → (put s t).recall_ttl ≡ s.recall_ttl
  unfolding put commit
  recall_ttl-put s t = elim (Option-cases (marshal_trace t)) [
    | inl failed ↦ rw (failed, put)
    | inr (val, made) ↦ rw (made, put)
  ]

-- A closed trace that boltStore has just remembered is recalled under its own key until the recall limit has
-- passed since it was closed; if it has passed, the answer is none, also where a record of the whole series
-- is there. A closed trace that was recalled is recalled again at the same time, whatever the disk
-- does.
pub bolt_store-RecallLaws :
    (D : Bolt)
    → (R : RecallLaws (bolt_store D)) × ((s : BoltStore D) (when now : Time)
        → R.expires s when now ≡ is_expired s.recall_ttl now when)
unfolding delete commit
bolt_store-RecallLaws D = (
  record {
    expires = λ s when now. is_expired s.recall_ttl now when;
    recall-remember_closed = recall-remember_closed;
    recall-remember_closed_expired = recall-remember_closed_expired;
    recall-recall_closed_found = recall-recall_closed_found;
    expires-put = λ s t when now. rw recall_ttl-put;
    expires-delete = λ s k when now. refl;
  },
  λ s when now. refl,
)
