-- ===== src/Store/Disk/Loading.antt =====
-- internal/correlate/store_bolt.go: the maps that `load` fills from the buckets.
use tracearr.Prelude.{◌⊎◌, inl, inr, String, [], ◌∷◌, Option, none, some, string_eq, Eq}
use tracearr.Prelude.Map
use tracearr.Prelude.Map.{Map}
use tracearr.Event.{MediaKey, key_eq}
use tracearr.Store.Records.{TraceState, ClosedTrace}
use tracearr.Store.Disk.Keys.{decode_media_key}
use tracearr.Store.Disk.Json.{Json, unmarshal_key}
use tracearr.Store.Disk.Codec.{unmarshal_trace, unmarshal_closed}
use tracearr.Store.Disk.Buckets.{Value, json, raw}

-- json.Unmarshal of a value; what is no JSON is an error
unfoldable pub decode {ℓ} : {A : Type ℓ} → (Json → Option A) → Value → Option A
decode unmarshal (json j) = unmarshal j
decode unmarshal (raw bs) = none

-- The records on disk by their own keys, or the name at which decoding fails.
unfoldable pub load_traces :
    Map String Value → Map MediaKey TraceState → String ⊎ Map MediaKey TraceState
unfolding decode
load_traces [] m = inr m
load_traces ((name, v) ∷ rest) m = elim (decode unmarshal_trace v) [
  | none ↦ inl name
  | some t ↦ load_traces rest (Map.insert t.key t m)
]

-- The entries that decode, in the order of the loop; the others are left out.
unfoldable pub load_entries :
    {K V : Type 0} ⦃e : Eq K⦄
    → (String → Value → Option (K × V))
    → Map String Value
    → Map K V
    → Map K V
load_entries entry [] m = m
load_entries entry ((name, v) ∷ rest) m = elim (entry name v) [
  | none ↦ load_entries entry rest m
  | some (k, x) ↦ load_entries entry rest (Map.insert k x m)
]

unfoldable pub download_entry : String → Value → Option (String × MediaKey)
unfolding decode
download_entry id v = elim (decode unmarshal_key v) [ none ↦ none | some k ↦ some (id, k) ]

unfoldable pub closed_entry : String → Value → Option (MediaKey × ClosedTrace)
unfolding decode
closed_entry name v = elim (decode unmarshal_closed v) [
  | none ↦ none
  | some c ↦ elim (decode_media_key name) [ none ↦ none | some k ↦ some (k, c) ]
]

-- why a store could not be opened
pub data OpenError : Type 0 where
  open_bolt create_buckets : OpenError
  rehydrate : String → OpenError
