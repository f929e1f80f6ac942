-- ===== src/Exporter.antt =====
-- internal/exporter/otlp.go: the headers, the TLS settings and the choice of the exporter. Files, X.509
-- and the clients of OpenTelemetry are parameters; strings.TrimSpace and strings.ToLower too.
pub mod Headers
use tracearr.Prelude.{
  ℕ, ◌≡◌, refl, Bool, true, false, not, ◌&&◌, ◌||◌, String, List, [], ◌∷◌, ◌++◌, Option, none, some,
  ◌⊎◌, inl, inr, ◌==◌, string_eq, if◌then◌else◌, nat_beq, Eq, arith, ◌↔◌, nat_beq_iff,
}
use tracearr.Prelude.Int.{ℤ, pos, int_beq}
use tracearr.Prelude.Lists.{Bytes, is_empty}
use tracearr.Prelude.Map
use tracearr.Prelude.Map.{Map}

abbrev pub bytes_beq : Bytes → Bytes → Bool
bytes_beq [] [] = true
bytes_beq (a ∷ as₁) (b ∷ bs) = nat_beq a b && bytes_beq as₁ bs
bytes_beq _ _ = false

pub bytes_beq_iff : (a b : Bytes) → (bytes_beq a b ≡ true) ↔ (a ≡ b)
bytes_beq_iff [] [] = ground arith
bytes_beq_iff [] (b ∷ bs) = ground arith
bytes_beq_iff (a ∷ as₁) [] = ground arith
bytes_beq_iff (a ∷ as₁) (b ∷ bs) = ground (arith, bytes_beq_iff as₁ bs)

instance abbrev pub bytes_key : Eq Bytes
bytes_key = record { beq = bytes_beq; beq_iff = bytes_beq_iff }

abbrev pub Headers : Type 0
Headers = Map Bytes Bytes

unfoldable pub cons_head : ℕ → List Bytes → List Bytes
cons_head b [] = (b ∷ []) ∷ []
cons_head b (part ∷ parts) = (b ∷ part) ∷ parts

-- strings.Split(s, ",")
unfoldable pub split_commas : Bytes → List Bytes
unfolding cons_head
split_commas [] = [] ∷ []
split_commas (b ∷ bs) =
    let rest = split_commas bs in if nat_beq b b',' then [] ∷ rest else cons_head b rest

-- kv[:i] and kv[i+1:], with i = strings.Index(kv, "=")
unfoldable pub cut_equals : Bytes → Option (Bytes × Bytes)
cut_equals [] = none
cut_equals (b ∷ bs) =
    let rest = cut_equals bs in
    if nat_beq b b'='
    then some ([], bs)
    else elim rest [ none ↦ none | some (before, after) ↦ some (b ∷ before, after) ]

module _ (trim_space : Bytes → Bytes) where
  unfoldable pub add_header : Option (Bytes × Bytes) → Headers → Headers
  add_header none out = out
  add_header (some (before, after)) out =
      if is_empty before then out else Map.insert (trim_space before) (trim_space after) out

  -- one round of the loop
  unfoldable pub parse_header : Bytes → Headers → Headers
  unfolding add_header cut_equals
  parse_header kv out =
      let trimmed = trim_space kv in
      if is_empty trimmed then out else add_header (cut_equals trimmed) out

  unfoldable pub parse_all : List Bytes → Headers → Headers
  unfolding parse_header
  parse_all [] out = out
  parse_all (kv ∷ rest) out = parse_all rest (parse_header kv out)

  unfoldable pub parse_headers : Bytes → Headers
  unfolding parse_all split_commas
  parse_headers s = parse_all (split_commas s) []

pub record ExporterConfig : Type 0 where
  pub endpoint : String
  pub protocol : String
  pub insecure : Bool
  pub headers_env : String
  pub ca_file : String
  pub cert_file : String
  pub key_file : String
  pub service_name : String
  pub namespace : String
  pub version : String
  pub batch_timeout : ℤ

pub data ExporterError : Type 0 where
  read_ca no_certificates load_keypair client_failed resource_merge : ExporterError
  unknown_protocol : String → ExporterError

-- A tls.Config: the pool of a CA file, and the pair of a certificate's file and its key's.
pub record Tls : Type 0 where
  pub root_cas : Option Bytes
  pub certificate : Option (String × String)

pub data Security : Type 0 where
  system insecure_transport : Security
  tls : Tls → Security

-- the client and its options
pub data Client : Type 0 where
  grpc http : String → Headers → Security → Client

pub record Provider : Type 0 where
  pub client : Client
  pub batch : ℤ
  pub service : String
  pub service_namespace : String
  pub service_version : String

-- What the libraries and the system answer.
pub record System : Type 0 where
  pub getenv : String → Bytes
  pub trim_space : Bytes → Bytes
  pub to_lower : String → String
  pub read_file : String → Option Bytes
  pub has_certificates : Bytes → Bool
  pub loads_keypair : String → String → Bool
  pub connects : Client → Bool
  pub merges : String → String → String → Bool

module _ (sys : System) where
  unfoldable pub load_ca : String → ExporterError ⊎ Option Bytes
  load_ca file = if file == "" then inr none else elim (sys.read_file file) [
    | none ↦ inl read_ca
    | some pem ↦ if sys.has_certificates pem then inr (some pem) else inl no_certificates
  ]

  unfoldable pub load_pair : String → String → ExporterError ⊎ Option (String × String)
  load_pair cert key =
      if cert == "" && key == ""
      then inr none
      else if sys.loads_keypair cert key
      then inr (some (cert, key))
      else inl load_keypair

  unfoldable pub load_tls : ExporterConfig → ExporterError ⊎ Option Tls
  unfolding load_ca load_pair
  load_tls c =
      if c.ca_file == "" && c.cert_file == "" && c.key_file == ""
      then inr none
      else elim (load_ca c.ca_file) [
        | inl e ↦ inl e
        | inr roots ↦ elim (load_pair c.cert_file c.key_file) [
          | inl e ↦ inl e
          | inr pair ↦ inr (some (record { root_cas = roots; certificate = pair }))
        ]
      ]

  -- the last switch of each protocol
  unfoldable pub security : Bool → Option Tls → Security
  security true cfg = insecure_transport
  security false none = system
  security false (some cfg) = tls cfg

  unfoldable pub connect : Client → ExporterError ⊎ Client
  connect client = if sys.connects client then inr client else inl client_failed

  unfoldable pub build_exporter : ExporterConfig → ExporterError ⊎ Client
  unfolding load_tls security connect
  build_exporter c =
      let headers = parse_headers sys.trim_space (sys.getenv c.headers_env) in
      let protocol = sys.to_lower c.protocol in
      let secured = load_tls c in
      if protocol == "" || protocol == "grpc"
      then elim secured [
        | inl e ↦ inl e
        | inr cfg ↦ connect (grpc c.endpoint headers (security c.insecure cfg))
      ]
      else if protocol == "http" || protocol == "http/protobuf"
      then elim secured [
        | inl e ↦ inl e
        | inr cfg ↦ connect (http c.endpoint headers (security c.insecure cfg))
      ]
      else inl (unknown_protocol c.protocol)

  -- New
  unfoldable pub new_provider : ExporterConfig → ExporterError ⊎ Provider
  unfolding build_exporter
  new_provider c =
      let service = if c.service_name == "" then "tracearr" else c.service_name in
      let namespace = if c.namespace == "" then "media" else c.namespace in
      let batch = if int_beq c.batch_timeout (pos 0) then pos 5000000000 else c.batch_timeout in
      elim (build_exporter c) [
        | inl e ↦ inl e
        | inr client ↦
            if sys.merges service namespace c.version
            then inr (record {
              client = client;
              batch = batch;
              service = service;
              service_namespace = namespace;
              service_version = c.version;
            })
            else inl resource_merge
      ]
