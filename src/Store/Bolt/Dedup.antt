-- ===== src/Store/Bolt/Dedup.antt =====
-- internal/correlate/store_bolt.go: duplicates, which `boltStore.SeenEvent` keeps on disk alone.
use tracearr.Prelude.{
  ℕ, ◌+◌, ◌*◌, ◌/◌, ◌^◌, ◌<◌, ◌≡◌, ap, ◌∙◌, true, false, not, String, [], ◌∷◌, some, Option, ◌==◌,
  string_eq, arith, beq_refl, ltb, inl, inr, Bool-cases,
}
use tracearr.Prelude.Clock.{Time}
use tracearr.Event.{Source}
use tracearr.Store.Memory.{dedup_key}
use tracearr.Store.Disk.Buckets.{Bolt, BoltLaws, dedup, raw, put_value, written, Value, Write}
use tracearr.Store.Disk.Unix.{put_bytes, unix_seconds, from_unix-read_uint}
use tracearr.Store.Bolt.{BoltStore, seen_event, commit, seen_at, is_recent, open_bolt_store, load}

-- the instant without its part of a second
abbrev pub whole_seconds : Time → Time
whole_seconds now = now / 10 ^ 9 * 10 ^ 9

-- the call that records an event
abbrev pub seen_write : Source → String → Time → Write
seen_write src id now = put_value dedup (dedup_key src id) (raw (put_bytes 8 (unix_seconds now) []))

module _ {D : Bolt} where
  -- What SeenEvent answers depends on the bucket and on the limit alone.
  seen_event_answer :
      (s : BoltStore D) (src : Source) (id : String) (now : Time) (v : Option Value)
      → (id == "") ≡ false
      → D.get s.db dedup (dedup_key src id) ≡ v
      → (seen_event s src id now).0 ≡ not (is_recent s.dedup_ttl now (seen_at v))
  unfolding seen_event
  seen_event_answer s src id now v named h = ground (arith, h)

  dedup-load : (s t : BoltStore D) → load s ≡ inr t → (t.db ≡ s.db) × (t.dedup_ttl ≡ s.dedup_ttl)
  unfolding load
  dedup-load s t h = ground (arith, h)

  -- what stands in the bucket once a new event was recorded
  get-seen_event :
      (laws : BoltLaws D) (s : BoltStore D) (src : Source) (id : String) (now : Time)
      → (id == "") ≡ false
      → (seen_event s src id now).0 ≡ true
      → (D.update s.db (seen_write src id now ∷ [])).0 ≡ true
      → D.get (seen_event s src id now).1.db dedup (dedup_key src id)
        ≡ some (raw (put_bytes 8 (unix_seconds now) []))
  unfolding seen_event commit written
  get-seen_event laws s src id now named new committed = ground (
    arith,
    named,
    new,
    laws.get_committed s.db (seen_write src id now ∷ []) dedup (dedup_key src id) committed,
    beq_refl (dedup_key src id),
  )

  dedup_ttl-seen_event :
      (s : BoltStore D) (src : Source) (id : String) (now : Time)
      → (seen_event s src id now).1.dedup_ttl ≡ s.dedup_ttl
  unfolding seen_event commit
  dedup_ttl-seen_event s src id now = ground arith

  seen_event_bytes :
      (s : BoltStore D) (src : Source) (id : String) (now later : Time)
      → (id == "") ≡ false
      → now < 2 ^ 63 * 10 ^ 9
      → D.get s.db dedup (dedup_key src id) ≡ some (raw (put_bytes 8 (unix_seconds now) []))
      → (seen_event s src id later).0 ≡ not (ltb later (whole_seconds now + s.dedup_ttl))
  unfolding seen_at is_recent
  seen_event_bytes s src id now later named fits there =
      seen_event_answer s src id later _ named there
      ∙ ap (λ t. not (ltb later (t + s.dedup_ttl))) (from_unix-read_uint now fits)

  -- A store opened on a database has its entries.
  get-open_bolt_store :
      (laws : BoltLaws D) (db : D.Db) (d r : ℕ) (t : BoltStore D) (name : String)
      → open_bolt_store (some db) d r ≡ inr t
      → (D.get t.db dedup name ≡ D.get db dedup name) × (t.dedup_ttl ≡ d)
  unfolding open_bolt_store written
  get-open_bolt_store laws db d r t name h = elim (Bool-cases (D.update db []).0) [
    | inl created ↦
        let started : BoltStore D = record {
          db = (D.update db []).1;
          dedup_ttl = d;
          recall_ttl = r;
          by_key = [];
          by_dlid = [];
          closed = [];
        } in
        let same = dedup-load started t (ground (arith, h, created)) in
        (rw (same.0) (laws.get_committed db [] dedup name created), same.1)
    | inr failed ↦ absurd (ground (arith, h, failed))
  ]

-- An event that was new and whose transaction was committed is a duplicate, exactly until the limit has
-- passed since the whole second in which it came: in the same process, and in the next one, which opens
-- the database with the same limit.
pub seen_event_again :
    {D : Bolt} (laws : BoltLaws D) (s : BoltStore D) (src : Source) (id : String) (now later : Time)
    (r : ℕ) (t : BoltStore D)
    → (id == "") ≡ false
    → now < 2 ^ 63 * 10 ^ 9
    → (seen_event s src id now).0 ≡ true
    → (D.update s.db (seen_write src id now ∷ [])).0 ≡ true
    → open_bolt_store (some (seen_event s src id now).1.db) s.dedup_ttl r ≡ inr t
    → ((seen_event (seen_event s src id now).1 src id later).0
        ≡ not (ltb later (whole_seconds now + s.dedup_ttl)))
      × ((seen_event t src id later).0 ≡ not (ltb later (whole_seconds now + s.dedup_ttl)))
seen_event_again {D} laws s src id now later r t named fits new committed opened =
    let there = get-seen_event laws s src id now named new committed in
    let (same, ttl) =
      get-open_bolt_store laws (seen_event s src id now).1.db s.dedup_ttl r t (dedup_key src id)
        opened in
    let until = λ (ttl : ℕ). not (ltb later (whole_seconds now + ttl)) in
    (
      seen_event_bytes (seen_event s src id now).1 src id now later named fits there
          ∙ ap until (dedup_ttl-seen_event s src id now),
      seen_event_bytes t src id now later named fits (same ∙ there) ∙ ap until ttl,
    )
