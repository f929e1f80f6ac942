-- ===== src/Engine/Recovery.antt =====
-- internal/correlate/engine.go and store_bolt.go: a new process takes up the traces of the last one.
use tracearr.Prelude.{
  ℕ, ◌≡◌, refl, sym, subst, true, false, List, [], ◌∷◌, some, ◌==◌, arith, is_some, Bool-cases,
  Option-cases, inl, inr, beq_refl,
}
use tracearr.Prelude.Lists.{All, contains}
use tracearr.Prelude.Map
use tracearr.Prelude.Map.{
  Map, get-insert, get-delete, get-select, keep_if, Distinct, select-Distinct,
}
use tracearr.Event.{MediaKey, key_eq, key_beq_iff}
use tracearr.Store.{Store, TraceState, KeyLaws}
use tracearr.Store.Listing.{values}
use tracearr.Store.Disk.KeyRoundTrip.{IsEncodable}
use tracearr.Store.Disk.Buckets.{Bolt, BoltLaws}
use tracearr.Store.Bolt.{BoltStore, bolt_store, get, load_all, mark_resumed, open_bolt_store}
use tracearr.Store.Bolt.Records.{bolt_store-KeyLaws, get-mark_resumed, resumed}
use tracearr.Store.Bolt.Mirror.{IsMirrored, Steps}
use tracearr.Store.Bolt.Reopen.{reopened}
use tracearr.Engine.Calls.{Context, Builder}
use tracearr.Engine.State.{Engine, new, put}
use tracearr.Engine.Lifetime.{resume, resume_all, restore}
use tracearr.Engine.Restart.{restore-Sound, keys_of}
use tracearr.Engine.Runs.{Sound}

-- The records of the list under the key are `r`.
abbrev Agrees : MediaKey → TraceState → List TraceState → Type 0
Agrees k r ts = All (λ (t : TraceState). t.key ≡ k → t ≡ r) ts

values-Agrees :
    (m : Map MediaKey TraceState) (k : MediaKey) (r : TraceState)
    → ((j : MediaKey) (t : TraceState) → Map.get j m ≡ some t → t.key ≡ j)
    → Distinct m
    → ((t : TraceState) → Map.get k m ≡ some t → t ≡ r)
    → Agrees k r (values m)
unfolding values Map.get
values-Agrees [] k r keyed distinct only = tt
values-Agrees ((j, t) ∷ m) k r keyed distinct only = (
  λ own. only t (ground (arith, own, keyed j t, beq_refl j)),
  values-Agrees m k r (λ i u there. keyed i u (ground (arith, there, distinct.0, key_beq_iff j i)))
      distinct.1 (λ u there. only u (ground (arith, there, distinct.0, key_beq_iff j k))),
)

module _ {S : Store} where
  ctx-resume_all :
      (ts : List TraceState) (e : Engine S) (k : MediaKey) (r : TraceState)
      → Agrees k r ts
      → (contains (keys_of ts) k ≡ false
          → Map.get k e.ctx_by_key ≡ some (Context.remote r.trace_id r.root_span_id))
      → Map.get k (resume_all ts e).ctx_by_key ≡ some (Context.remote r.trace_id r.root_span_id)
  unfolding resume_all resume put contains
  ctx-resume_all [] e k r agrees before = before refl
  ctx-resume_all (t ∷ ts) e k r agrees before =
      ctx-resume_all ts (resume t e) k r agrees.1 (λ missing. elim (Bool-cases (t.key == k)) [
        | inl own ↦
            let same = agrees.0 ((key_beq_iff t.key k).0 own) in
            ground (
              arith,
              same,
              own,
              get-insert t.key k (Context.remote t.trace_id t.root_span_id) e.ctx_by_key,
            )
        | inr other ↦ ground (
          arith,
          other,
          before (ground (arith, other, missing)),
          get-insert t.key k (Context.remote t.trace_id t.root_span_id) e.ctx_by_key,
        )
      ])

-- the records that LoadAll returns, under a key
load_all-Agrees :
    {D : Bolt} (L : KeyLaws (bolt_store D)) (s : BoltStore D) (k : MediaKey) (r : TraceState)
    → ((j : MediaKey) (t : TraceState) → Map.get j s.by_key ≡ some t → t.key ≡ j)
    → Map.get k s.by_key ≡ some r
    → Agrees k (record r { resumed = true }) (load_all s).0
unfolding load_all
load_all-Agrees L s k r keyed there =
    let marked = mark_resumed s.by_key in
    let all = Map.select (λ k t. true) marked in
    let same : (j : MediaKey) → Map.get j all ≡ resumed (Map.get j s.by_key) =
      λ j. ground (arith, get-select (λ k t. true) j marked, get-mark_resumed s.by_key j) in
    values-Agrees all k (record r { resumed = true })
      (λ j t found. elim (Option-cases (Map.get j s.by_key)) [
        | inl missing ↦ ground (arith, same j)
        | inr (u, stored) ↦ ground (arith, same j, keyed j u stored)
      ])
      (select-Distinct (λ k t. true) marked) (λ t found. ground (arith, same k))

-- After any committed operations on a store that mirrors its disk, the process ends; the next one opens
-- the database and restores. Then a trace that was in memory has the root context with the trace and the
-- root span that its record named, and the engine's invariants hold: each record has a root context and
-- each context a record, and no child span is open.
pub recovered :
    {D : Bolt} (laws : BoltLaws D) (B : Builder) (s u : BoltStore D) (d r ttl : ℕ) (k : MediaKey)
    (x : TraceState)
    → IsMirrored s
    → Steps s u
    → (D.update u.db []).0 ≡ true
    → IsEncodable k
    → get u k ≡ some x
    → (t : BoltStore D) × (open_bolt_store (some u.db) d r ≡ inr t)
      × (Map.get k (restore (new {S = bolt_store D} t ttl)).ctx_by_key
          ≡ some (Context.remote x.trace_id x.root_span_id))
      × Sound B ((bolt_store-KeyLaws D).0) (restore (new {S = bolt_store D} t ttl))
unfolding get restore new load_all
recovered {D} laws B s u d r ttl k x started steps begun ok stored =
    let L = (bolt_store-KeyLaws D).0 in
    let (t, opened, found, closed, index, keyed, mirrored) =
      reopened laws s u d r k "" started steps begun ok in
    let here : Map.get k t.by_key ≡ some (record x { resumed = false }) =
      ground (arith, found, stored) in
    let wf : L.Wf t = subst (λ (X : Type 0). X) (sym ((bolt_store-KeyLaws D).1 t)) keyed in
    let listed : contains (keys_of (load_all t).0) k ≡ is_some (Map.get k (mark_resumed t.by_key)) =
      L.contains-load_all t k wf in
    let agrees = load_all-Agrees L t k (record x { resumed = false }) keyed here in
    (
      t,
      opened,
      ctx-resume_all {S = bolt_store D} (load_all t).0
          (record (new {S = bolt_store D} t ttl) { store = (load_all t).1 }) k
          (record x { resumed = true }) agrees
          (λ missing. absurd (ground (arith, here, missing, listed, get-mark_resumed t.by_key k))),
      restore-Sound L B t ttl wf,
    )
