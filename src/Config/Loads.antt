-- ===== src/Config/Loads.antt =====
-- internal/config/config.go: which files `Load` accepts, and what it makes of them.
use tracearr.Prelude.{
  Bool, true, false, not, ◌&&◌, ◌||◌, String, Option, none, some, inl, inr, ◌==◌, string_eq, ◌≡◌,
  ◌↔◌, refl, arith, Option-cases, Sum-cases,
}
use tracearr.Prelude.Lists.{Bytes}
use tracearr.Config.{Config, apply_defaults, validate, resolve_secrets, finish_load, load}
use tracearr.Config.Secrets.{
  sources_ready, sources_with_secrets, resolve_secrets-ready, resolve_secrets-resolved,
}

unfoldable pub storage_ready : Config → Bool
storage_ready c =
    c.storage.backend == "memory" || (c.storage.backend == "bolt" && not (c.storage.path == ""))

memory_not_bolt : (backend : String) → (backend == "memory") ≡ true → (backend == "bolt") ≡ false
memory_not_bolt backend h = rw ((string_eq.beq_iff backend "memory").0 h) refl

validate-ready :
    (c : Config) → validate c ≡ none → (not (c.otlp.endpoint == "") && storage_ready c) ≡ true
unfolding validate storage_ready
validate-ready c h = ground (arith, h)

ready-validate :
    (c : Config) → (not (c.otlp.endpoint == "") && storage_ready c) ≡ true → validate c ≡ none
unfolding validate storage_ready
ready-validate c h = ground (arith, h, memory_not_bolt c.storage.backend)

-- The settings that are accepted, after the defaults.
unfoldable pub is_ready : (String → Bytes) → Config → Bool
unfolding sources_ready storage_ready
is_ready getenv c =
    sources_ready getenv c.sources && (not (c.otlp.endpoint == "") && storage_ready c)

abbrev pub with_all_secrets : (String → Bytes) → Config → Config
with_all_secrets getenv c = record c { sources = sources_with_secrets getenv c.sources }

finish_load-ready :
    (getenv : String → Bytes) (decoded : Config)
    → is_ready getenv (apply_defaults decoded) ≡ true
    → finish_load getenv decoded ≡ inr (with_all_secrets getenv (apply_defaults decoded))
unfolding finish_load is_ready
finish_load-ready getenv decoded h =
    let c = apply_defaults decoded in
    ground
      (arith, h, resolve_secrets-ready getenv c.sources, ready-validate (with_all_secrets getenv c))

finish_load-accepted :
    (getenv : String → Bytes) (decoded c : Config)
    → finish_load getenv decoded ≡ inr c
    → (is_ready getenv (apply_defaults decoded) ≡ true)
      × (c ≡ with_all_secrets getenv (apply_defaults decoded))
unfolding finish_load is_ready
finish_load-accepted getenv decoded c h =
    let d = apply_defaults decoded in
    elim (Sum-cases (resolve_secrets getenv d.sources)) [
      | inl (e, refused) ↦ absurd (ground (arith, h, refused))
      | inr (sources, found) ↦
          let (ready, same) = resolve_secrets-resolved getenv d.sources sources found in
          elim (Option-cases (validate (record d { sources = sources }))) [
            | inr (e, refused) ↦ absurd (ground (arith, h, found, refused))
            | inl valid ↦
                let settings = validate-ready (record d { sources = sources }) valid in
                (ground (arith, ready, settings), ground (arith, h, found, valid, same))
          ]
    ]

pub load_iff :
    (getenv : String → Bytes) (unmarshal : Bytes → Option Config) (file : Option Bytes) (c : Config)
    → (load getenv unmarshal file ≡ inr c) ↔ (
        (raw : Bytes) × (decoded : Config) × (file ≡ some raw)
        × (unmarshal raw ≡ some decoded)
        × (is_ready getenv (apply_defaults decoded) ≡ true)
        × (c ≡ with_all_secrets getenv (apply_defaults decoded)))
unfolding load
load_iff getenv unmarshal none c =
    (λ h. absurd (cc h), λ (raw, decoded, read, parsed, ready, same). absurd (cc read))
load_iff getenv unmarshal (some raw) c = (
  λ h. elim (Option-cases (unmarshal raw)) [
    | inl refused ↦ absurd (cc (rw (refused, load) at h))
    | inr (decoded, parsed) ↦
        let (ready, same) = finish_load-accepted getenv decoded c (rw (parsed, load) at h) in
        (raw, decoded, refl, parsed, ready, same)
  ],
  λ (other, decoded, read, parsed, ready, same).
      ground (arith, read, parsed, same, finish_load-ready getenv decoded ready),
)
