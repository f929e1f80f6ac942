-- ===== src/Store/Bolt/Mirror.antt =====
-- internal/correlate/store_bolt.go: the maps in memory mirror the disk, and the steps that keep them so.
use tracearr.Prelude.{◌≡◌, ap, true, false, String, [], ◌∷◌, Option, none, some, string_eq}
use tracearr.Prelude.Int.{ℤ}
use tracearr.Prelude.Clock.{Time}
use tracearr.Prelude.Map
use tracearr.Event.{MediaKey, key_eq, Source, Outcome}
use tracearr.Store.Records.{TraceState, TraceId}
use tracearr.Store.Disk.Keys.{encode_media_key, decode_media_key}
use tracearr.Store.Disk.KeyRoundTrip.{IsEncodable, decode_media_key-encode_media_key}
use tracearr.Store.Disk.Json.{Json, unmarshal_key}
use tracearr.Store.Disk.Codec.{marshal_trace, unmarshal_trace, marshal_closed, unmarshal_closed}
use tracearr.Store.Disk.Buckets.{
  Bolt, traces, dl_index, Bucket, Value, json, delete_value, put_value,
}
use tracearr.Store.Disk.Loading.{decode}
use tracearr.Store.Bolt.{
  BoltStore, put, delete, seen_event, remember_closed, recall_closed, load_all, put_writes,
  delete_writes, last_download,
}

-- Two keys that can be encoded are told apart on disk.
pub encode_media_key_inj :
    (j k : MediaKey)
    → IsEncodable j
    → IsEncodable k
    → encode_media_key j ≡ encode_media_key k
    → j ≡ k
encode_media_key_inj j k ok_j ok_k same = cc (
  decode_media_key-encode_media_key j ok_j,
  decode_media_key-encode_media_key k ok_k,
  ap decode_media_key same,
)

-- What is written of a record, which leaves out `Resumed`.
abbrev pub unresumed : Option TraceState → Option TraceState
unresumed none = none
unresumed (some t) = some (record t { resumed = false })

abbrev pub read : {A : Type 0} → (Json → Option A) → Option Value → Option A
read unmarshal none = none
read unmarshal (some v) = decode unmarshal v

-- Whatever key can be encoded is found in memory as it is on disk, and each name on disk is that of a
-- key.
pub record IsMirrored {D : Bolt} (s : BoltStore D) : Type 0 where
  pub trace_on_disk :
      (k : MediaKey)
      → IsEncodable k
      → read unmarshal_trace (D.get s.db traces (encode_media_key k))
        ≡ unresumed (Map.get k s.by_key)
  pub trace_named :
      (name : String) (v : Value)
      → D.get s.db traces name ≡ some v
      → (t : TraceState) × (decode unmarshal_trace v ≡ some t)
        × (encode_media_key t.key ≡ name)
        × IsEncodable t.key
  pub download_on_disk :
      (id : String) → read unmarshal_key (D.get s.db dl_index id) ≡ Map.get id s.by_dlid
  pub closed_on_disk :
      (k : MediaKey)
      → IsEncodable k
      → read unmarshal_closed (D.get s.db Bucket.closed (encode_media_key k)) ≡ Map.get k s.closed
  pub closed_named :
      (name : String) (v : Value)
      → D.get s.db Bucket.closed name ≡ some v
      → (k : MediaKey) × (encode_media_key k ≡ name) × IsEncodable k

-- The operations, with what lets each be read back: a key that can be encoded, a record that Marshal
-- writes, and a transaction that was committed.
pub data Step {D : Bolt} : BoltStore D → BoltStore D → Type 0 where
  put_step :
      (s : BoltStore D) (t : TraceState) (j : Json)
      → IsEncodable t.key
      → marshal_trace t ≡ some j
      → (D.update s.db (put_writes t j)).0 ≡ true
      → Step s (put s t)
  delete_step :
      (s : BoltStore D) (k : MediaKey)
      → IsEncodable k
      → (D.update s.db (delete_writes k (last_download (Map.get k s.by_key)))).0 ≡ true
      → Step s (delete s k)
  seen_step :
      (s : BoltStore D) (src : Source) (id : String) (now : Time)
      → Step s (seen_event s src id now).1
  remember_step :
      (s : BoltStore D) (k : MediaKey) (tid : TraceId) (n : ℤ) (o : Outcome) (when : Time)
      (j : Json)
      → IsEncodable k
      → marshal_closed (record { trace_id = tid; attempt = n; outcome = o; closed_at = when })
        ≡ some j
      → (D.update s.db (put_value Bucket.closed (encode_media_key k) (json j) ∷ [])).0 ≡ true
      → Step s (remember_closed s k tid n o when)
  recall_step :
      (s : BoltStore D) (k : MediaKey) (now : Time)
      → IsEncodable k
      → (D.update s.db (delete_value Bucket.closed (encode_media_key k) ∷ [])).0 ≡ true
      → Step s (recall_closed s k now).1
  load_all_step : (s : BoltStore D) → Step s (load_all s).1

-- any number of operations
pub data Steps {D : Bolt} : BoltStore D → BoltStore D → Type 0 where
  done : (s : BoltStore D) → Steps s s
  next : (s t u : BoltStore D) → Step s t → Steps t u → Steps s u
