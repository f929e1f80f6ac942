-- ===== src/Store/Bolt/Opened.antt =====
-- internal/correlate/store_bolt.go: `OpenBoltStore` on any database.
use tracearr.Prelude.{
  ℕ, ◌≡◌, String, [], ◌∷◌, Option, none, some, arith, Bool-cases, Option-cases, Sum-cases, inl, inr,
}
use tracearr.Prelude.Map
use tracearr.Prelude.Map.{Map, get-insert}
use tracearr.Event.{MediaKey, key_eq, key_beq_iff}
use tracearr.Store.Records.{TraceState}
use tracearr.Store.Disk.Codec.{unmarshal_trace}
use tracearr.Store.Disk.Buckets.{Bolt, Value, traces}
use tracearr.Store.Disk.Loading.{load_traces, decode}
use tracearr.Store.Bolt.{BoltStore, open_bolt_store, load}
use tracearr.Store.Bolt.Index.{IsKeyed}

load_traces-keyed :
    (es : Map String Value) (m l : Map MediaKey TraceState)
    → ((k : MediaKey) (t : TraceState) → Map.get k m ≡ some t → t.key ≡ k)
    → load_traces es m ≡ inr l
    → (k : MediaKey) (t : TraceState) → Map.get k l ≡ some t
    → t.key ≡ k
unfolding load_traces
load_traces-keyed [] m l keyed loaded k t there = keyed k t (ground (arith, there, loaded))
load_traces-keyed ((name, v) ∷ rest) m l keyed loaded k t there =
    elim (Option-cases (decode unmarshal_trace v)) [
      | inl failed ↦ absurd (cc (rw (failed, load_traces) at loaded))
      | inr (u, decoded) ↦
          load_traces-keyed rest (Map.insert u.key u m) l
            (λ j w found. ground (arith, get-insert u.key j u m, key_beq_iff u.key j, keyed j w))
            (rw (decoded, load_traces) at loaded) k t there
    ]

module _ {D : Bolt} where
  load-IsKeyed :
      (s t : BoltStore D)
      → ((k : MediaKey) (u : TraceState) → Map.get k s.by_key ≡ some u → u.key ≡ k)
      → load s ≡ inr t
      → IsKeyed t
  unfolding load
  load-IsKeyed s t keyed loaded k u there =
      elim (Sum-cases (load_traces (D.for_each s.db traces) s.by_key)) [
        | inl (name, failed) ↦ absurd (ground (arith, loaded, failed))
        | inr (m, read) ↦
            load_traces-keyed (D.for_each s.db traces) s.by_key m keyed read k u
              (ground (arith, loaded, read, there))
      ]

  -- Whatever stands on disk, the records of a store that opens are under their own keys.
  pub opened-IsKeyed :
      (file : Option D.Db) (d r : ℕ) (t : BoltStore D)
      → open_bolt_store file d r ≡ inr t
      → IsKeyed t
  unfolding open_bolt_store Map.get
  opened-IsKeyed none d r t opened = absurd (cc opened)
  opened-IsKeyed (some db) d r t opened = elim (Bool-cases (D.update db []).0) [
    | inl created ↦
        let started : BoltStore D = record {
          db = (D.update db []).1;
          dedup_ttl = d;
          recall_ttl = r;
          by_key = [];
          by_dlid = [];
          closed = [];
        } in
        load-IsKeyed started t (λ k u there. absurd (cc there)) (ground (arith, opened, created))
    | inr failed ↦ absurd (ground (arith, opened, failed))
  ]
