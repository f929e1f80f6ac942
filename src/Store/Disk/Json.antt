-- ===== src/Store/Disk/Json.antt =====
-- internal/correlate/store_bolt.go: json.Marshal and json.Unmarshal of the records on disk. A value
-- is the tree that its text stands for. An array of bytes is one leaf, the number that the model has
-- for it, and an instant is one leaf: the text of RFC 3339 in nanoseconds. The objects are those
-- that Marshal writes, each field once under its own name.
use tracearr.Prelude.{
  ℕ, Bool, false, String, ◌==◌, string_eq, Option, none, some, ◌>>=◌, if◌then◌else◌,
}
use tracearr.Prelude.Int.{ℤ, pos}
use tracearr.Prelude.Clock.{Time}
use tracearr.Event.{MediaKey, Source, Outcome}

mutual
  pub data Json : Type 0 where
    null : Json
    bool : Bool → Json
    number : ℤ → Json
    text : String → Json
    bytes : ℕ → Json
    instant : Time → Json
    object : Fields → Json

  pub data Fields : Type 0 where
    end : Fields
    field : String → Json → Fields → Fields

-- The value of a field; where it is missing it is left as it was, which is what null does too.
unfoldable pub find_field : String → Fields → Json
find_field name end = null
find_field name (field other value rest) =
    let found = find_field name rest in if other == name then value else found

-- A field of each type; `none` is the error for a value of another kind.
unfoldable pub read_bool : Json → Option Bool
read_bool null = some false
read_bool (bool b) = some b
read_bool _ = none

unfoldable pub read_int : Json → Option ℤ
read_int null = some (pos 0)
read_int (number z) = some z
read_int _ = none

unfoldable pub read_text : Json → Option String
read_text null = some ""
read_text (text s) = some s
read_text _ = none

unfoldable pub read_bytes : Json → Option ℕ
read_bytes null = some 0
read_bytes (bytes n) = some n
read_bytes _ = none

unfoldable pub read_instant : Json → Option Time
read_instant null = some 0
read_instant (instant t) = some t
read_instant _ = none

-- The constants of `Source` and `Outcome` by their texts; the program writes no others.
unfoldable pub read_source : Json → Option Source
read_source (text s) =
    if s == "overseerr"
    then some Source.overseerr
    else if s == "jellyseerr"
    then some Source.jellyseerr
    else if s == "sonarr"
    then some Source.sonarr
    else if s == "radarr"
    then some Source.radarr
    else if s == "prowlarr"
    then some Source.prowlarr
    else if s == "nzbget"
    then some Source.nzbget
    else if s == "sabnzbd"
    then some Source.sabnzbd
    else none
read_source _ = none

unfoldable pub read_outcome : Json → Option Outcome
read_outcome null = some Outcome.unset
read_outcome (text s) =
    if s == "available"
    then some Outcome.available
    else if s == "failed"
    then some Outcome.failed
    else if s == "declined"
    then some Outcome.declined
    else if s == "timeout"
    then some Outcome.timeout
    else if s == ""
    then some Outcome.unset
    else none
read_outcome _ = none

unfoldable pub marshal_key : MediaKey → Json
marshal_key k = object (
    field "Type" (text k.type) (
      field "TMDB" (number k.tmdb) (
        field "TVDB" (number k.tvdb)
          (field "Season" (number k.season) (field "Episode" (number k.episode) end)))))

unfoldable pub unmarshal_key : Json → Option MediaKey
unfolding read_text read_int find_field
unmarshal_key null =
    some (record { type = ""; tmdb = pos 0; tvdb = pos 0; season = pos 0; episode = pos 0 })
unmarshal_key (object fs) = do
  type ← read_text (find_field "Type" fs)
  tmdb ← read_int (find_field "TMDB" fs)
  tvdb ← read_int (find_field "TVDB" fs)
  season ← read_int (find_field "Season" fs)
  episode ← read_int (find_field "Episode" fs)
  some (record { type = type; tmdb = tmdb; tvdb = tvdb; season = season; episode = episode })
unmarshal_key _ = none
