-- ===== src/Store/Disk/Buckets.antt =====
-- internal/correlate/store_bolt.go: bbolt, as the store uses it. The module is not part of the
-- program, so that the database is a parameter, with its documentation as laws.
use tracearr.Prelude.{
  ℕ, ◌≡◌, Bool, true, false, ◌&&◌, String, List, [], ◌∷◌, Option, none, some, ◌==◌, string_eq,
  if◌then◌else◌,
}
use tracearr.Prelude.Map
use tracearr.Prelude.Map.{Map, Distinct}
use tracearr.Store.Disk.Json.{Json}

pub data Bucket : Type 0 where
  traces dl_index dedup closed : Bucket

abbrev pub bucket_beq : Bucket → Bucket → Bool
bucket_beq traces traces = true
bucket_beq dl_index dl_index = true
bucket_beq dedup dedup = true
bucket_beq closed closed = true
bucket_beq _ _ = false

-- The bytes of a value: the JSON that they are the text of, or bytes that the store lays out itself.
pub data Value : Type 0 where
  json : Json → Value
  raw : List ℕ → Value

-- a call of Put or Delete on a bucket
pub data Write : Type 0 where
  put_value : Bucket → String → Value → Write
  delete_value : Bucket → String → Write

-- What a bucket has under a name after a transaction's calls.
unfoldable pub written : List Write → Bucket → String → Option Value → Option Value
written [] b name old = old
written (put_value c other v ∷ ws) b name old =
    written ws b name (if bucket_beq c b && other == name then some v else old)
written (delete_value c other ∷ ws) b name old =
    written ws b name (if bucket_beq c b && other == name then none else old)

-- An open database: bucket.Get, bucket.ForEach, and db.Update of a transaction with these calls, with
-- whether it was committed.
pub record Bolt : Type 1 where
  pub Db : Type 0
  pub get : Db → Bucket → String → Option Value
  pub for_each : Db → Bucket → Map String Value
  pub update : Db → List Write → Bool × Db

-- What bbolt documents: ForEach visits each name that Get finds once, a committed transaction makes all
-- its changes, and one that is rolled back none.
pub record BoltLaws (D : Bolt) : Type 0 where
  pub get-for_each :
      (db : D.Db) (b : Bucket) (name : String) → Map.get name (D.for_each db b) ≡ D.get db b name
  pub Distinct-for_each : (db : D.Db) (b : Bucket) → Distinct (D.for_each db b)
  pub get_committed :
      (db : D.Db) (ws : List Write) (b : Bucket) (name : String)
      → (D.update db ws).0 ≡ true
      → D.get (D.update db ws).1 b name ≡ written ws b name (D.get db b name)
  pub get_rolled_back :
      (db : D.Db) (ws : List Write) (b : Bucket) (name : String)
      → (D.update db ws).0 ≡ false
      → D.get (D.update db ws).1 b name ≡ D.get db b name
