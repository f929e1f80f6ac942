-- ===== src/Config/Secrets.antt =====
-- internal/config/config.go: `resolveSecrets` against the sources that are ready.
use tracearr.Prelude.{
  Bool, true, false, not, ◌&&◌, ◌||◌, String, ◌⊎◌, inl, inr, ◌==◌, string_eq, ◌≡◌, refl, arith,
  Bool-cases, if◌then◌else◌,
}
use tracearr.Prelude.Lists.{Bytes, is_empty}
use tracearr.Config.{
  AppSource, SourcesConfig, LoadError, api_key_unset, script_token_unset, resolve, resolve_secrets,
  ◌>>=◌,
}

module _ (getenv : String → Bytes) where
  -- The variable that is named is set.
  unfoldable pub is_set : String → Bool
  is_set env = env == "" || not (is_empty (getenv env))

  -- the variable's value, where one is named
  unfoldable pub secret : String → Bytes → Bytes
  secret env unset = if env == "" then unset else getenv env

  -- An enabled source has its key and its token.
  unfoldable pub app_ready : AppSource → Bool
  unfolding is_set
  app_ready app = not app.enabled || (is_set app.api_key_env && is_set app.script_token_env)

  unfoldable pub with_secrets : AppSource → AppSource
  unfolding secret
  with_secrets app =
      if app.enabled
      then record app {
        api_key = secret app.api_key_env app.api_key;
        webhook_secret = secret app.webhook_secret_env app.webhook_secret;
        script_token = secret app.script_token_env app.script_token;
      }
      else app

  resolve-ready :
      (name : String) (app : AppSource)
      → app_ready app ≡ true
      → resolve getenv name app ≡ inr (with_secrets app)
  unfolding app_ready with_secrets resolve
  resolve-ready name app h = ground (arith, h)

  resolve-unready :
      (name : String) (app : AppSource)
      → app_ready app ≡ false
      → (e : LoadError) × (resolve getenv name app ≡ inl e)
  unfolding app_ready resolve
  resolve-unready name app h = elim (Bool-cases (is_set app.api_key_env)) [
    | inl set ↦ (script_token_unset name app.script_token_env, ground (arith, h, set))
    | inr unset ↦ (api_key_unset name app.api_key_env, ground (arith, h, unset))
  ]

  -- A source that resolves is ready, and the next one follows.
  resolved :
      {A : Type 0} (name : String) (app : AppSource) (k : AppSource → LoadError ⊎ A) (a : A)
      → (resolve getenv name app >>= k) ≡ inr a
      → (app_ready app ≡ true) × (k (with_secrets app) ≡ inr a)
  resolved name app k a h = elim (Bool-cases (app_ready app)) [
    | inl ready ↦ (ready, rw (resolve-ready name app ready) at h)
    | inr unready ↦
        let (e, refused) = resolve-unready name app unready in absurd (cc (rw refused at h))
  ]

  unfoldable pub sources_ready : SourcesConfig → Bool
  sources_ready s =
      app_ready s.overseerr
      && app_ready s.jellyseerr
      && app_ready s.sonarr
      && app_ready s.radarr
      && app_ready s.prowlarr
      && app_ready s.nzbget
      && app_ready s.sabnzbd

  unfoldable pub sources_with_secrets : SourcesConfig → SourcesConfig
  sources_with_secrets s = record {
    overseerr = with_secrets s.overseerr;
    jellyseerr = with_secrets s.jellyseerr;
    sonarr = with_secrets s.sonarr;
    radarr = with_secrets s.radarr;
    prowlarr = with_secrets s.prowlarr;
    nzbget = with_secrets s.nzbget;
    sabnzbd = with_secrets s.sabnzbd;
  }

  pub resolve_secrets-ready :
      (s : SourcesConfig)
      → sources_ready s ≡ true
      → resolve_secrets getenv s ≡ inr (sources_with_secrets s)
  unfolding sources_ready sources_with_secrets resolve_secrets
  resolve_secrets-ready s h =
      rw
        (
          resolve-ready "overseerr" s.overseerr (ground (arith, h)),
          resolve-ready "jellyseerr" s.jellyseerr (ground (arith, h)),
          resolve-ready "sonarr" s.sonarr (ground (arith, h)),
          resolve-ready "radarr" s.radarr (ground (arith, h)),
          resolve-ready "prowlarr" s.prowlarr (ground (arith, h)),
          resolve-ready "nzbget" s.nzbget (ground (arith, h)),
          resolve-ready "sabnzbd" s.sabnzbd (ground (arith, h)),
        )
        refl

  pub resolve_secrets-resolved :
      (s r : SourcesConfig)
      → resolve_secrets getenv s ≡ inr r
      → (sources_ready s ≡ true) × (r ≡ sources_with_secrets s)
  unfolding sources_ready sources_with_secrets resolve_secrets
  resolve_secrets-resolved s r h =
      let (overseerr, h₁) = resolved "overseerr" s.overseerr _ r h in
      let (jellyseerr, h₂) = resolved "jellyseerr" s.jellyseerr _ r h₁ in
      let (sonarr, h₃) = resolved "sonarr" s.sonarr _ r h₂ in
      let (radarr, h₄) = resolved "radarr" s.radarr _ r h₃ in
      let (prowlarr, h₅) = resolved "prowlarr" s.prowlarr _ r h₄ in
      let (nzbget, h₆) = resolved "nzbget" s.nzbget _ r h₅ in
      let (sabnzbd, h₇) = resolved "sabnzbd" s.sabnzbd _ r h₆ in
      (rw (overseerr, jellyseerr, sonarr, radarr, prowlarr, nzbget, sabnzbd) refl, cc (h₇))
