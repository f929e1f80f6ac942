-- ===== src/Examples/Disks.antt =====
-- internal/correlate/store_bolt.go: runs of boltStore on a database in memory.
use tracearr.Prelude.{
  ◌≡◌, refl, true, not, String, List, [], ◌∷◌, none, some, ◌==◌, string_eq, arith, inr, ltb, ◌+◌,
  ◌&&◌, if◌then◌else◌,
}
use tracearr.Prelude.Int.{pos, negsuc}
use tracearr.Prelude.Map
use tracearr.Prelude.Map.{Map, get-insert, get-delete, get-select, keep_if, select-Distinct}
use tracearr.Prelude.Lists.{contains}
use tracearr.Event.{MediaKey, key_eq, radarr}
use tracearr.Store.Interface.{KeyLaws, RecallLaws}
use tracearr.Store.Disk.Keys.{encode_media_key, decode_media_key}
use tracearr.Store.Disk.KeyRoundTrip.{IsEncodable, decode_media_key-encode_media_key}
use tracearr.Store.Disk.Buckets.{
  Bolt, BoltLaws, Bucket, Value, Write, put_value, delete_value, written, bucket_beq,
}
use tracearr.Store.{TraceState}
use tracearr.Store.Bolt.{BoltStore, bolt_store, open_bolt_store, seen_event, put, get}
use tracearr.Store.Bolt.Index.{IsKeyed}
use tracearr.Store.Bolt.Records.{bolt_store-KeyLaws}
use tracearr.Store.Bolt.Dedup.{seen_event_again, whole_seconds}
use tracearr.Store.Bolt.Mirror.{IsMirrored, Steps, done, next, put_step, unresumed}
use tracearr.Store.Bolt.Reopen.{reopened}
use tracearr.Store.Bolt.Recall.{bolt_store-RecallLaws}
use tracearr.Store.Disk.Codec.{marshal_trace, trace_fields}
use tracearr.Store.Disk.Json.{object}
use tracearr.Prelude.Clock.{Time, is_expired}
use tracearr.Event.{key_beq}
use tracearr.Engine.Calls.{Context}
use tracearr.Engine.State.{new}
use tracearr.Engine.Lifetime.{restore}
use tracearr.Engine.Runs.{Sound}
use tracearr.Engine.Recovery.{recovered}
use tracearr.Examples.{opened_record, episode_key, numbering}

abbrev pub Buckets : Type 0
Buckets = Bucket → Map String Value

unfoldable pub write_all : List Write → Buckets → Buckets
write_all [] db = db
write_all (put_value c name v ∷ ws) db =
    write_all ws (λ b. if bucket_beq c b then Map.insert name v (db b) else db b)
write_all (delete_value c name ∷ ws) db =
    write_all ws (λ b. if bucket_beq c b then Map.delete name (db b) else db b)

get-write_all :
    (ws : List Write) (db : Buckets) (b : Bucket) (name : String)
    → Map.get name (write_all ws db b) ≡ written ws b name (Map.get name (db b))
unfolding write_all written
get-write_all [] db b name = refl
get-write_all (put_value c other v ∷ ws) db b name =
    let db' : Buckets = λ b. if bucket_beq c b then Map.insert other v (db b) else db b in
    let here : Map.get name (db' b)
        ≡ (if bucket_beq c b && other == name then some v else Map.get name (db b)) =
      ground (arith, get-insert other name v (db b)) in
    rw (here) at (get-write_all ws db' b name)
get-write_all (delete_value c other ∷ ws) db b name =
    let db' : Buckets = λ b. if bucket_beq c b then Map.delete other (db b) else db b in
    let here : Map.get name (db' b)
        ≡ (if bucket_beq c b && other == name then none else Map.get name (db b)) =
      ground (arith, get-delete other name (db b)) in
    rw (here) at (get-write_all ws db' b name)

-- A database that never fails.
abbrev pub disk : Bolt
disk = record {
  Db = Buckets;
  get = λ db b name. Map.get name (db b);
  for_each = λ db b. Map.select (λ _ _. true) (db b);
  update = λ db ws. (true, write_all ws db);
}

pub disk_laws : BoltLaws disk
disk_laws = record {
  get-for_each =
      λ db b name. ground (arith, get-select (λ (_ : String) (_ : Value). true) name (db b));
  Distinct-for_each = λ db b. select-Distinct (λ _ _. true) (db b);
  get_committed = λ db ws b name committed. get-write_all ws db b name;
  get_rolled_back = λ db ws b name failed. absurd (cc failed);
}

abbrev pub empty_disk : Buckets
empty_disk _ = []

abbrev pub fresh_store : BoltStore disk
fresh_store = record {
  db = empty_disk;
  dedup_ttl = 5000000000;
  recall_ttl = 1000;
  by_key = [];
  by_dlid = [];
  closed = [];
}

fresh_store-IsMirrored : IsMirrored fresh_store
unfolding Map.get
fresh_store-IsMirrored = record {
  trace_on_disk = λ k ok. refl;
  trace_named = λ name v there. absurd (cc there);
  download_on_disk = λ id. refl;
  closed_on_disk = λ k ok. refl;
  closed_named = λ name v there. absurd (cc there);
}

abbrev odd_key : MediaKey
odd_key = record {
  type = "tv";
  tmdb = negsuc 6;
  tvdb = pos 81189;
  season = pos 0;
  episode = pos 10;
}

decode_media_key-encode_media_key_example :
    decode_media_key (encode_media_key odd_key) ≡ some odd_key
unfolding contains
decode_media_key-encode_media_key_example = decode_media_key-encode_media_key odd_key (record {
  no_bar = refl;
  tmdb = ground arith;
  tvdb = ground arith;
  season = ground arith;
  episode = ground arith;
})

episode_key-IsEncodable : IsEncodable episode_key
unfolding contains
episode_key-IsEncodable = record {
  no_bar = refl;
  tmdb = ground arith;
  tvdb = ground arith;
  season = ground arith;
  episode = ground arith;
}

seen_event_again_example :
    ((seen_event (seen_event fresh_store radarr "x" 7000000001).1 radarr "x" 8000000000).0
      ≡ not (ltb 8000000000 (whole_seconds 7000000001 + 5000000000)))
    × ((seen_event
          (record fresh_store { db = (seen_event fresh_store radarr "x" 7000000001).1.db })
          radarr
          "x"
          8000000000).0
        ≡ not (ltb 8000000000 (whole_seconds 7000000001 + 5000000000)))
unfolding seen_event Map.get open_bolt_store Map.select write_all
seen_event_again_example =
    seen_event_again disk_laws fresh_store radarr "x" 7000000001 8000000000 1000
      (record fresh_store { db = (seen_event fresh_store radarr "x" 7000000001).1.db }) refl
      (ground arith) refl refl refl

abbrev one_record : BoltStore disk
one_record = put fresh_store opened_record

one_step : Steps fresh_store one_record
unfolding marshal_trace
one_step =
    next fresh_store one_record one_record
      (put_step fresh_store opened_record (object (trace_fields opened_record))
        episode_key-IsEncodable refl refl)
      (done one_record)

reopened_example :
    (t : BoltStore disk) × (open_bolt_store (some one_record.db) 5000000000 1000 ≡ inr t)
    × (get t episode_key ≡ unresumed (get one_record episode_key))
    × (Map.get episode_key t.closed ≡ Map.get episode_key one_record.closed)
    × (Map.get "" t.by_dlid ≡ Map.get "" one_record.by_dlid)
    × IsKeyed t
    × IsMirrored t
reopened_example =
    reopened disk_laws fresh_store one_record 5000000000 1000 episode_key "" fresh_store-IsMirrored
      one_step refl episode_key-IsEncodable

recovered_example :
    (t : BoltStore disk) × (open_bolt_store (some one_record.db) 5000000000 1000 ≡ inr t)
    × (Map.get episode_key (restore (new {S = bolt_store disk} t 86400)).ctx_by_key
        ≡ some (Context.remote opened_record.trace_id opened_record.root_span_id))
    × Sound numbering ((bolt_store-KeyLaws disk).0) (restore (new {S = bolt_store disk} t 86400))
unfolding get put Map.get Map.insert key_beq marshal_trace
recovered_example =
    recovered disk_laws numbering fresh_store one_record 5000000000 1000 86400 episode_key
      opened_record fresh_store-IsMirrored one_step refl episode_key-IsEncodable refl

bolt_store-KeyLaws_example :
    (L : KeyLaws (bolt_store disk)) × ((s : BoltStore disk) → L.Wf s ≡ IsKeyed s)
    × ((t : TraceState) → L.mark t ≡ record t { resumed = true })
bolt_store-KeyLaws_example = bolt_store-KeyLaws disk

bolt_store-RecallLaws_example :
    (R : RecallLaws (bolt_store disk)) × ((s : BoltStore disk) (when now : Time)
      → R.expires s when now ≡ is_expired s.recall_ttl now when)
bolt_store-RecallLaws_example = bolt_store-RecallLaws disk
