-- ===== src/Store/Memory.antt =====
-- internal/correlate/store.go: `memoryStore`. Each method runs under the mutex, so that it is one
-- step of the state. Expired entries are dropped where the code ranges over its maps.
pub mod Records
pub mod Dedup
pub mod Recall
pub mod Index
use tracearr.Prelude.{
  ℕ, Bool, true, false, String, List, [], ◌∷◌, map, Option, none, some, ◌==◌, string_eq, is_some,
  if◌then◌else◌, ◌&&◌, not,
}
use tracearr.Prelude.Int.{ℤ}
use tracearr.Prelude.Clock.{Time, is_expired}
use tracearr.Prelude.Map
use tracearr.Prelude.Map.{Map}
use tracearr.Event.{MediaKey, key_eq, Source, source_text, series_key, is_tv, Outcome}
use tracearr.Store.Records.{TraceState, ClosedTrace, TraceId}
use tracearr.Store.Interface.{Store}
use tracearr.Store.Listing.{keys, values}
use Prim.Native.String.{◌++◌ as str_append}

pub record MemoryStore : Type 0 where
  pub by_key : Map MediaKey TraceState
  pub by_dlid : Map String MediaKey
  pub dedup : Map String Time
  pub closed : Map MediaKey ClosedTrace
  pub dedup_ttl : ℕ
  pub recall_ttl : ℕ

unfoldable pub new : ℕ → ℕ → MemoryStore
new dedup_ttl recall_ttl = record {
  by_key = [];
  by_dlid = [];
  dedup = [];
  closed = [];
  dedup_ttl = dedup_ttl;
  recall_ttl = recall_ttl;
}

unfoldable pub get : MemoryStore → MediaKey → Option TraceState
get m k = Map.get k m.by_key

unfoldable pub get_by_download_id : MemoryStore → String → Option TraceState
get_by_download_id m id =
    if id == ""
    then none
    else elim (Map.get id m.by_dlid) [ none ↦ none | some k ↦ Map.get k m.by_key ]

unfoldable pub put : MemoryStore → TraceState → MemoryStore
put m s = record m {
  by_key = Map.insert s.key s m.by_key;
  by_dlid = if s.download_id == "" then m.by_dlid else Map.insert s.download_id s.key m.by_dlid;
}

-- the index entry that `Delete` removes: that of the record's last download
unfoldable pub unindex : Option TraceState → Map String MediaKey → Map String MediaKey
unindex none ids = ids
unindex (some s) ids = if s.download_id == "" then ids else Map.delete s.download_id ids

unfoldable pub delete : MemoryStore → MediaKey → MemoryStore
unfolding unindex
delete m k = record m {
  by_key = Map.delete k m.by_key;
  by_dlid = unindex (Map.get k m.by_key) m.by_dlid;
}

unfoldable pub stale : MemoryStore → ℕ → Time → List MediaKey
unfolding keys
stale m ttl now = keys (Map.select (λ k s. is_expired ttl now s.updated_at) m.by_key)

unfoldable pub remember_closed : MemoryStore → MediaKey → TraceId → ℤ → Outcome → Time → MemoryStore
remember_closed m k tid attempt outcome when =
    let kept = Map.drop_if (λ c. is_expired m.recall_ttl when c.closed_at) m.closed in
    record m {
      closed =
          Map.insert k
            (record { trace_id = tid; attempt = attempt; outcome = outcome; closed_at = when })
            kept;
    }

-- the record of `k`, or for a series that of the whole series
unfoldable pub find_closed : Map MediaKey ClosedTrace → MediaKey → Option ClosedTrace
find_closed closed k = elim (Map.get k closed) [
  | some c ↦ some c
  | none ↦ if is_tv k then Map.get (series_key k) closed else none
]

unfoldable pub recall_closed : MemoryStore → MediaKey → Time → Option ClosedTrace × MemoryStore
recall_closed m k now = elim (find_closed m.closed k) [
  | none ↦ (none, m)
  | some c ↦
      if is_expired m.recall_ttl now c.closed_at
      then (none, record m { closed = Map.delete k m.closed })
      else (some c, m)
]

-- string(src) + "|" + id
unfoldable pub dedup_key : Source → String → String
dedup_key src id = str_append (source_text src) (str_append "|" id)

unfoldable pub seen_event : MemoryStore → Source → String → Time → Bool × MemoryStore
seen_event m src id now =
    if id == ""
    then (true, m)
    else let kept = Map.drop_if (λ t. is_expired m.dedup_ttl now t) m.dedup in
      if is_some (Map.get (dedup_key src id) kept)
      then (false, record m { dedup = kept })
      else (true, record m { dedup = Map.insert (dedup_key src id) now kept })

unfoldable pub load_all : MemoryStore → List TraceState × MemoryStore
unfolding values
load_all m = (values (Map.select (λ k s. true) m.by_key), m)

-- NewMemoryStore returns the value behind the interface.
abbrev pub memory_store : Store
memory_store = record {
  State = MemoryStore;
  get = get;
  get_by_download_id = get_by_download_id;
  put = put;
  delete = delete;
  stale = stale;
  seen_event = seen_event;
  remember_closed = remember_closed;
  recall_closed = recall_closed;
  load_all = load_all;
}
