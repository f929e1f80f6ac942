-- ===== src/Receiver/Auth.antt =====
-- internal/receiver/auth.go. A header is the list of its bytes. strings.TrimSpace and the HMAC with
-- SHA-256 are parameters; hex.DecodeString is written out.
use tracearr.Prelude.{
  ℕ, ◌+◌, ◌-◌, ◌*◌, Bool, true, false, ◌&&◌, [], ◌∷◌, Option, none, some, if◌then◌else◌, leb,
  nat_beq,
}
use tracearr.Prelude.Lists.{is_empty, Bytes}
use tracearr.Prelude.Text.{runes}
use tracearr.Engine.Titles.{has_prefix}

unfoldable pub bytes_eq : Bytes → Bytes → Bool
bytes_eq [] [] = true
bytes_eq (a ∷ as₁) (b ∷ bs) = nat_beq a b && bytes_eq as₁ bs
bytes_eq _ _ = false

-- s[n:]
unfoldable pub drop : ℕ → Bytes → Bytes
drop n [] = []
drop n (b ∷ bs) = if nat_beq n 0 then b ∷ bs else drop (n - 1) bs

-- strings.TrimPrefix
unfoldable pub trim_prefix : Bytes → ℕ → Bytes → Bytes
unfolding has_prefix drop
trim_prefix s n prefix = if has_prefix s prefix then drop n s else s

unfoldable pub hex_digit : ℕ → Option ℕ
hex_digit c =
    if leb b'0' c && leb c b'9'
    then some (c - b'0')
    else if leb b'a' c && leb c b'f'
    then some (c - b'a' + 10)
    else if leb b'A' c && leb c b'F'
    then some (c - b'A' + 10)
    else none

-- hex.DecodeString: an odd number of digits is an error
unfoldable pub hex_decode : Bytes → Option Bytes
unfolding hex_digit
hex_decode [] = some []
hex_decode (h ∷ []) = none
hex_decode (h ∷ l ∷ rest) =
    let tail = hex_decode rest in
    elim (hex_digit h) [
      | none ↦ none
      | some a ↦ elim (hex_digit l) [
        | none ↦ none
        | some b ↦ elim tail [ none ↦ none | some bs ↦ some ((a * 16 + b) ∷ bs) ]
      ]
    ]

module _ (trim_space : Bytes → Bytes) (hmac_sha256 : Bytes → Bytes → Bytes) where
  -- verifyHMACSHA256: header, secret, body
  unfoldable pub verify_hmac_sha256 : Bytes → Bytes → Bytes → Bool
  unfolding trim_prefix hex_decode bytes_eq
  verify_hmac_sha256 header secret body =
      let got = trim_prefix (trim_space header) 7 (runes "sha256=") in
      if is_empty secret then true else if is_empty got then false else elim (hex_decode got) [
        | none ↦ false
        | some bytes ↦ bytes_eq bytes (hmac_sha256 secret body)
      ]

-- verifyBearer: header, expected
unfoldable pub verify_bearer : Bytes → Bytes → Bool
unfolding has_prefix drop bytes_eq
verify_bearer header expected =
    if is_empty expected
    then true
    else if has_prefix header (runes "Bearer ")
    then bytes_eq (drop 7 header) expected
    else false
