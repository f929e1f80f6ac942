-- ===== src/Store/Disk/Unix.antt =====
-- internal/correlate/store_bolt.go: the instants of the dedup bucket, eight bytes with the seconds
-- since 1970, the first byte the highest.
use tracearr.Prelude.{
  ℕ, zero, suc, ◌+◌, ◌-◌, ◌*◌, ◌/◌, ◌%◌, ◌^◌, ◌<◌, ◌≡◌, List, [], ◌∷◌, ltb, arith, if◌then◌else◌,
  ◌∙◌,
}
use tracearr.Prelude.Clock.{Time}

-- binary.BigEndian.PutUint64: the lowest of n bytes stands last.
unfoldable pub put_bytes : ℕ → ℕ → List ℕ → List ℕ
put_bytes zero v out = out
put_bytes (suc n) v out = put_bytes n (v / 256) (v % 256 ∷ out)

-- binary.BigEndian.Uint64
unfoldable pub read_uint : ℕ → List ℕ → ℕ
read_uint acc [] = acc
read_uint acc (b ∷ bs) = read_uint (acc * 256 + b) bs

pub read_uint-put_bytes :
    (n v : ℕ) (out : List ℕ) → v < 256 ^ n → read_uint 0 (put_bytes n v out) ≡ read_uint v out
unfolding read_uint put_bytes
read_uint-put_bytes zero v out h = ground (arith, h)
read_uint-put_bytes (suc n) v out h =
    read_uint-put_bytes n (v / 256) (v % 256 ∷ out) (omega (arith, h)) ∙ ground arith

-- The seconds from Go's zero time to 1970.
abbrev pub unix_epoch : ℕ
unix_epoch = 62135596800

-- uint64(now.Unix()), which wraps for an instant before 1970
unfoldable pub unix_seconds : Time → ℕ
unix_seconds now = (now / 10 ^ 9 + (2 ^ 64 - unix_epoch)) % 2 ^ 64

-- time.Unix(int64(v), 0); an instant before Go's zero time stands as the zero time.
unfoldable pub from_unix : ℕ → Time
from_unix v =
    let seconds = (v + unix_epoch) % 2 ^ 64 in if ltb seconds (2 ^ 63) then seconds * 10 ^ 9 else 0

-- The bytes keep the instant without its part of a second.
pub from_unix-read_uint :
    (now : Time)
    → now < 2 ^ 63 * 10 ^ 9
    → from_unix (read_uint 0 (put_bytes 8 (unix_seconds now) [])) ≡ now / 10 ^ 9 * 10 ^ 9
unfolding from_unix read_uint unix_seconds
from_unix-read_uint now h =
    rw (read_uint-put_bytes 8 (unix_seconds now) [] (omega arith)) (ground (arith, h))
