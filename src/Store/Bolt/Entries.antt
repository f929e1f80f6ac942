-- ===== src/Store/Bolt/Entries.antt =====
-- internal/correlate/store_bolt.go: the records that `load` reads from the bucket of traces.
use tracearr.Prelude.{
  ◌≡◌, refl, String, [], ◌∷◌, Option, none, some, string_eq, arith, Option-cases, inl, inr,
}
use tracearr.Prelude.Map
use tracearr.Prelude.Map.{Map, Distinct, get-insert}
use tracearr.Event.{MediaKey, key_eq, key_beq_iff}
use tracearr.Store.Records.{TraceState}
use tracearr.Store.Disk.Codec.{unmarshal_trace}
use tracearr.Store.Disk.Buckets.{Value}
use tracearr.Store.Disk.Loading.{load_traces, load_entries, decode}

pub nothing : (k : MediaKey) (t : TraceState) → (Map.get k [] ≡ some t) → ⊥
unfolding Map.get
nothing k t there = cc

-- a record by its own key
unfoldable pub trace_entry : String → Value → Option (MediaKey × TraceState)
unfolding decode
trace_entry name v = elim (decode unmarshal_trace v) [ none ↦ none | some t ↦ some (t.key, t) ]

-- Where each value decodes, loading does not fail.
pub load_traces-load_entries :
    (es : Map String Value) (m : Map MediaKey TraceState)
    → Distinct es
    → ((name : String) (v : Value)
        → Map.get name es ≡ some v
        → (t : TraceState) × (decode unmarshal_trace v ≡ some t))
    → load_traces es m ≡ inr (load_entries trace_entry es m)
unfolding load_traces load_entries Map.get trace_entry
load_traces-load_entries [] m distinct fits = refl
load_traces-load_entries ((name, v) ∷ rest) m distinct fits =
    let (t, decoded) = fits name v (ground (arith, string_eq.beq_iff name name)) in
    let later = load_traces-load_entries rest (Map.insert t.key t m) distinct.1 (λ other w there.
      fits other w (ground (arith, there, distinct.0, string_eq.beq_iff name other))) in
    ground (arith, decoded, later)

pub load_entries-keyed :
    (es : Map String Value) (m : Map MediaKey TraceState)
    → ((k : MediaKey) (t : TraceState) → Map.get k m ≡ some t → t.key ≡ k)
    → (k : MediaKey) (t : TraceState) → Map.get k (load_entries trace_entry es m) ≡ some t
    → t.key ≡ k
unfolding load_entries trace_entry
load_entries-keyed [] m keyed k t there = keyed k t there
load_entries-keyed ((name, v) ∷ rest) m keyed k t there =
    elim (Option-cases (decode unmarshal_trace v)) [
      | inl failed ↦ load_entries-keyed rest m keyed k t (rw (failed, load_entries) at there)
      | inr (u, decoded) ↦
          load_entries-keyed rest (Map.insert u.key u m)
            (λ j w found. ground (arith, get-insert u.key j u m, key_beq_iff u.key j, keyed j w)) k
            t (rw (decoded, load_entries) at there)
    ]
