-- ===== src/Store/Bolt/Steps.antt =====
-- internal/correlate/store_bolt.go: every operation keeps the mirror.
use tracearr.Prelude.{
  ◌≡◌, ◌∙◌, refl, true, String, List, [], ◌∷◌, Option, some, ◌==◌, string_eq, arith, Bool-cases,
  Option-cases, inl, inr,
}
use tracearr.Prelude.Clock.{Time, is_expired}
use tracearr.Prelude.Map
use tracearr.Prelude.Map.{get-insert, get-delete}
use tracearr.Event.{MediaKey, key_eq, key_beq_iff, Source}
use tracearr.Store.Records.{ClosedTrace}
use tracearr.Store.Memory.{find_closed, dedup_key}
use tracearr.Store.Disk.Keys.{encode_media_key}
use tracearr.Store.Disk.KeyRoundTrip.{IsEncodable}
use tracearr.Store.Disk.Json.{Json}
use tracearr.Store.Disk.Codec.{marshal_closed, unmarshal_closed-marshal_closed}
use tracearr.Store.Disk.Buckets.{
  Bolt, BoltLaws, traces, dl_index, dedup, Bucket, Value, json, written, Write, put_value,
  delete_value,
}
use tracearr.Store.Disk.Loading.{decode}
use tracearr.Store.Bolt.{
  BoltStore, commit, seen_event, remember_closed, recall_closed, load_all, closed_value, seen_at,
  is_recent,
}
use tracearr.Store.Bolt.Records.{get-mark_resumed}
use tracearr.Store.Bolt.Dedup.{seen_write}
use tracearr.Store.Bolt.Mirror.{
  IsMirrored, encode_media_key_inj, Step, put_step, delete_step, seen_step, remember_step,
  recall_step, load_all_step, Steps, done, next,
}
use tracearr.Store.Bolt.Mirrored.{put-IsMirrored, delete-IsMirrored}

module _ {D : Bolt} (laws : BoltLaws D) where
  -- A transaction that writes nothing to a bucket leaves it, whether it is committed or not.
  get-untouched :
      (db : D.Db) (ws : List Write) (b : Bucket) (name : String)
      → written ws b name (D.get db b name) ≡ D.get db b name
      → D.get (D.update db ws).1 b name ≡ D.get db b name
  get-untouched db ws b name h = elim (Bool-cases (D.update db ws).0) [
    | inl committed ↦ laws.get_committed db ws b name committed ∙ h
    | inr failed ↦ laws.get_rolled_back db ws b name failed
  ]

  -- The mirror depends on three buckets and on the maps.
  same-IsMirrored :
      (s : BoltStore D) (db : D.Db)
      → ((name : String) → D.get db traces name ≡ D.get s.db traces name)
      → ((name : String) → D.get db dl_index name ≡ D.get s.db dl_index name)
      → ((name : String) → D.get db Bucket.closed name ≡ D.get s.db Bucket.closed name)
      → IsMirrored s
      → IsMirrored (record s { db = db })
  same-IsMirrored s db same_traces same_index same_closed h = record {
    trace_on_disk = λ k ok. rw same_traces (h.trace_on_disk k ok);
    trace_named = λ name v there. h.trace_named name v (rw same_traces at there);
    download_on_disk = λ id. rw same_index (h.download_on_disk id);
    closed_on_disk = λ k ok. rw same_closed (h.closed_on_disk k ok);
    closed_named = λ name v there. h.closed_named name v (rw same_closed at there);
  }

  -- an operation whose calls are on the bucket of duplicates
  commit-IsMirrored :
      (s : BoltStore D) (ws : List Write)
      → ((name : String) (old : Option Value) → written ws traces name old ≡ old)
      → ((name : String) (old : Option Value) → written ws dl_index name old ≡ old)
      → ((name : String) (old : Option Value) → written ws Bucket.closed name old ≡ old)
      → IsMirrored s
      → IsMirrored (commit s ws)
  unfolding commit
  commit-IsMirrored s ws on_traces on_index on_closed h =
      same-IsMirrored s (D.update s.db ws).1
        (λ name. get-untouched s.db ws traces name (on_traces name _))
        (λ name. get-untouched s.db ws dl_index name (on_index name _))
        (λ name. get-untouched s.db ws Bucket.closed name (on_closed name _)) h

  seen-IsMirrored :
      (s : BoltStore D) (src : Source) (id : String) (now : Time)
      → IsMirrored s
      → IsMirrored (seen_event s src id now).1
  unfolding seen_event written
  seen-IsMirrored s src id now h = elim (Bool-cases (id == "")) [
    | inl unnamed ↦ rw (unnamed, seen_event) h
    | inr named ↦
        elim (Bool-cases
          (is_recent s.dedup_ttl now (seen_at (D.get s.db dedup (dedup_key src id))))) [
            | inl recent ↦
                rw (named, recent, seen_event)
                  (commit-IsMirrored s [] (λ name old. refl) (λ name old. refl) (λ name old. refl)
                    h)
            | inr new ↦
                rw (named, new, seen_event)
                  (commit-IsMirrored s (seen_write src id now ∷ []) (λ name old. refl)
                    (λ name old. refl) (λ name old. refl) h)
          ]
  ]

  remember-IsMirrored :
      (s : BoltStore D) (k : MediaKey) (c : ClosedTrace) (j : Json)
      → IsEncodable k
      → marshal_closed c ≡ some j
      → (D.update s.db (put_value Bucket.closed (encode_media_key k) (json j) ∷ [])).0 ≡ true
      → IsMirrored s
      → IsMirrored (remember_closed s k c.trace_id c.attempt c.outcome c.closed_at)
  unfolding remember_closed commit written decode closed_value
  remember-IsMirrored s k c j ok made committed h =
      let ws = put_value Bucket.closed (encode_media_key k) (json j) ∷ [] in
      let after = λ (b : Bucket) (name : String). laws.get_committed s.db ws b name committed in
      rw (made, remember_closed)
        (record {
          trace_on_disk =
              λ i ok_i. ground (arith, after traces (encode_media_key i), h.trace_on_disk i ok_i);
          trace_named = λ name v there. h.trace_named name v (ground (arith, after traces name));
          download_on_disk = λ id. ground (arith, after dl_index id, h.download_on_disk id);
          closed_on_disk = λ i ok_i. ground (
            arith,
            after Bucket.closed (encode_media_key i),
            h.closed_on_disk i ok_i,
            get-insert k i c s.closed,
            key_beq_iff k i,
            encode_media_key_inj k i ok ok_i,
            string_eq.beq_iff (encode_media_key k) (encode_media_key i),
            unmarshal_closed-marshal_closed c j made,
          );
          closed_named = λ name v there. elim (Bool-cases (encode_media_key k == name)) [
            | inl own ↦ (k, (string_eq.beq_iff (encode_media_key k) name).0 own, ok)
            | inr other ↦ h.closed_named name v (ground (arith, after Bucket.closed name))
          ];
        })

  forget-IsMirrored :
      (s : BoltStore D) (k : MediaKey)
      → IsEncodable k
      → (D.update s.db (delete_value Bucket.closed (encode_media_key k) ∷ [])).0 ≡ true
      → IsMirrored s
      → IsMirrored (
          commit
            (record s { closed = Map.delete k s.closed })
            (delete_value Bucket.closed (encode_media_key k) ∷ []))
  unfolding commit written
  forget-IsMirrored s k ok committed h =
      let ws = delete_value Bucket.closed (encode_media_key k) ∷ [] in
      let after = λ (b : Bucket) (name : String). laws.get_committed s.db ws b name committed in
      record {
        trace_on_disk =
            λ i ok_i. ground (arith, after traces (encode_media_key i), h.trace_on_disk i ok_i);
        trace_named = λ name v there. h.trace_named name v (ground (arith, after traces name));
        download_on_disk = λ id. ground (arith, after dl_index id, h.download_on_disk id);
        closed_on_disk = λ i ok_i. ground (
          arith,
          after Bucket.closed (encode_media_key i),
          h.closed_on_disk i ok_i,
          get-delete k i s.closed,
          key_beq_iff k i,
          encode_media_key_inj k i ok ok_i,
          string_eq.beq_iff (encode_media_key k) (encode_media_key i),
        );
        closed_named =
            λ name v there. h.closed_named name v (ground (arith, after Bucket.closed name));
      }

  recall-IsMirrored :
      (s : BoltStore D) (k : MediaKey) (now : Time)
      → IsEncodable k
      → (D.update s.db (delete_value Bucket.closed (encode_media_key k) ∷ [])).0 ≡ true
      → IsMirrored s
      → IsMirrored (recall_closed s k now).1
  unfolding recall_closed
  recall-IsMirrored s k now ok committed h = elim (Option-cases (find_closed s.closed k)) [
    | inl missing ↦ rw (missing, recall_closed) h
    | inr (c, there) ↦ elim (Bool-cases (is_expired s.recall_ttl now c.closed_at)) [
      | inl expired ↦ rw (there, expired, recall_closed) (forget-IsMirrored s k ok committed h)
      | inr fresh ↦ rw (there, fresh, recall_closed) h
    ]
  ]

  load_all-IsMirrored : (s : BoltStore D) → IsMirrored s → IsMirrored (load_all s).1
  unfolding load_all
  load_all-IsMirrored s h = record {
    trace_on_disk = λ k ok. ground (arith, h.trace_on_disk k ok, get-mark_resumed s.by_key k);
    trace_named = h.trace_named;
    download_on_disk = h.download_on_disk;
    closed_on_disk = h.closed_on_disk;
    closed_named = h.closed_named;
  }

  pub step-IsMirrored : (s t : BoltStore D) → Step s t → IsMirrored s → IsMirrored t
  step-IsMirrored _ _ (put_step s t j ok made committed) h =
      put-IsMirrored laws s t j ok made committed h
  step-IsMirrored _ _ (delete_step s k ok committed) h = delete-IsMirrored laws s k ok committed h
  step-IsMirrored _ _ (seen_step s src id now) h = seen-IsMirrored s src id now h
  step-IsMirrored _ _ (remember_step s k tid n o when j ok made committed) h =
      remember-IsMirrored s k
        (record { trace_id = tid; attempt = n; outcome = o; closed_at = when }) j ok made committed
        h
  step-IsMirrored _ _ (recall_step s k now ok committed) h =
      recall-IsMirrored s k now ok committed h
  step-IsMirrored _ _ (load_all_step s) h = load_all-IsMirrored s h

  pub steps-IsMirrored : (s t : BoltStore D) → Steps s t → IsMirrored s → IsMirrored t
  steps-IsMirrored _ _ (done s) h = h
  steps-IsMirrored _ _ (next s t u step rest) h =
      steps-IsMirrored t u rest (step-IsMirrored s t step h)
