-- ===== src/Program/Startup.antt =====
-- cmd/tracearr/main.go: the state in which the process begins to serve.
use tracearr.Prelude.{
  true, false, String, List, [], ◌∷◌, ◌++◌, Option, ◌⊎◌, inl, inr, ◌==◌, string_eq, ◌≡◌, refl, sym,
  ap, ◌∙◌, Bool, subst, arith, Bool-cases, Sum-cases, if◌then◌else◌,
}
use tracearr.Prelude.Lists.{All, is_empty}
use tracearr.Config.{Config, AppSource, LoadError}
use tracearr.Store.Memory
use tracearr.Store.Memory.{memory_store}
use tracearr.Store.Memory.Records.{memory_store-KeyLaws}
use tracearr.Store.Disk.Buckets.{Bolt}
use tracearr.Store.Bolt.{bolt_store, open_bolt_store}
use tracearr.Store.Bolt.Records.{bolt_store-KeyLaws}
use tracearr.Store.Bolt.Opened.{opened-IsKeyed}
use tracearr.Engine.Calls.{Builder}
use tracearr.Engine.State.{new}
use tracearr.Engine.Restart.{restore-Sound}
use tracearr.Engine.Runs.{Sound}
use tracearr.Exporter.{System, new_provider}
use tracearr.Metrics.{Metrics}
use tracearr.Receiver.Routes.{new_server, set_metrics, set_scrape_handler}
use tracearr.Pollers.Loops.{new_queue_poller, new_prowlarr_poller}
use tracearr.Program.{
  exporter_config, receiver_of, Running, on_memory, on_bolt, Poller, queue, prowlarr, Started,
  start, restore_running, open_engine, pollers_of, polls, dedup_ttl, recall_ttl, lookback,
}

-- The engine's invariants, over the store that it has.
abbrev pub RunningSound : {D : Bolt} → Builder → Running D → Type 0
RunningSound B (on_memory e) = Sound B (memory_store-KeyLaws.0) e
RunningSound {D} B (on_bolt e) = Sound B ((bolt_store-KeyLaws D).0) e

-- The engine is the one over the Bolt store.
abbrev pub is_on_bolt : {D : Bolt} → Running D → Bool
is_on_bolt (on_memory e) = false
is_on_bolt (on_bolt e) = true

-- A poller has a URL and a key.
abbrev pub HasKey : Poller → Type 0
HasKey (queue p) = ((p.base_url == "") ≡ false) × (is_empty p.api_key ≡ false)
HasKey (prowlarr p) = ((p.base_url == "") ≡ false) × (is_empty p.api_key ≡ false)

All-append : (ps qs : List Poller) → All HasKey ps → All HasKey qs → All HasKey (ps ++ qs)
All-append [] qs hp hq = hq
All-append (p ∷ ps) qs hp hq = (hp.0, All-append ps qs hp.1 hq)

polls-All :
    (app : AppSource) (p : Poller)
    → (polls app ≡ true → HasKey p)
    → All HasKey (if polls app then p ∷ [] else [])
polls-All app p h = elim (Bool-cases (polls app)) [
  | inl polled ↦ rw polled (h polled, tt)
  | inr idle ↦ rw idle tt
]

polled :
    (app : AppSource)
    → polls app ≡ true
    → ((app.base_url == "") ≡ false) × (is_empty app.api_key ≡ false)
unfolding polls
polled app h = (ground (arith, h), ground (arith, h))

pollers_of-All : (cfg : Config) → All HasKey (pollers_of cfg)
unfolding pollers_of new_queue_poller new_prowlarr_poller
pollers_of-All cfg =
    let src = cfg.sources in
    All-append _ _
      (All-append _ _
        (polls-All src.sonarr
          (queue (
            new_queue_poller "sonarr" src.sonarr.base_url src.sonarr.api_key
              src.sonarr.queue_poll_interval))
          (polled src.sonarr))
        (polls-All src.radarr
          (queue (
            new_queue_poller "radarr" src.radarr.base_url src.radarr.api_key
              src.radarr.queue_poll_interval))
          (polled src.radarr)))
      (polls-All src.prowlarr
        (prowlarr (
          new_prowlarr_poller src.prowlarr.base_url src.prowlarr.api_key
            src.prowlarr.history_poll_interval))
        (polled src.prowlarr))

module _ {D : Bolt} (B : Builder) where
  open_engine-RunningSound :
      (cfg : Config) (file : Option D.Db) (r : Running D)
      → open_engine cfg file ≡ inr r
      → RunningSound B (restore_running r)
  unfolding open_engine restore_running
  open_engine-RunningSound cfg file r h =
      let ttl = lookback cfg.correlation.download_lookback in
      let L = (bolt_store-KeyLaws D).0 in
      elim (Bool-cases (cfg.storage.backend == "bolt")) [
        | inl bolt ↦ elim (Sum-cases (open_bolt_store {D = D} file dedup_ttl recall_ttl)) [
          | inl (e, failed) ↦ absurd (ground (arith, h, bolt, failed))
          | inr (s, opened) ↦
              let wf : L.Wf s =
                subst (λ (X : Type 0). X) (sym ((bolt_store-KeyLaws D).1 s))
                  (opened-IsKeyed file dedup_ttl recall_ttl s opened) in
              let same : on_bolt (new {S = bolt_store D} s ttl) ≡ r =
                ground (arith, h, bolt, opened) in
              subst (λ (x : Running D). RunningSound B (restore_running x)) same
                (restore-Sound L B s ttl wf)
        ]
        | inr memory ↦
            let fresh = Memory.new dedup_ttl recall_ttl in
            let same : on_memory (new {S = memory_store} fresh ttl) ≡ r =
              ground (arith, h, memory) in
            subst (λ (x : Running D). RunningSound B (restore_running x)) same
              (restore-Sound (memory_store-KeyLaws.0) B fresh ttl
                (memory_store-KeyLaws.1 dedup_ttl recall_ttl))
      ]

  open_engine-backend :
      (cfg : Config) (file : Option D.Db) (r : Running D)
      → open_engine cfg file ≡ inr r
      → is_on_bolt (restore_running r) ≡ (cfg.storage.backend == "bolt")
  unfolding open_engine restore_running
  open_engine-backend cfg file r h =
      let ttl = lookback cfg.correlation.download_lookback in
      elim (Bool-cases (cfg.storage.backend == "bolt")) [
        | inl bolt ↦ elim (Sum-cases (open_bolt_store {D = D} file dedup_ttl recall_ttl)) [
          | inl (e, failed) ↦ absurd (ground (arith, h, bolt, failed))
          | inr (s, opened) ↦
              let same : on_bolt (new {S = bolt_store D} s ttl) ≡ r =
                ground (arith, h, bolt, opened) in
              subst
                (λ (x : Running D).
                  is_on_bolt (restore_running x) ≡ (cfg.storage.backend == "bolt"))
                same (sym bolt)
        ]
        | inr memory ↦
            let same : on_memory (new {S = memory_store} (Memory.new dedup_ttl recall_ttl) ttl)
                ≡ r =
              ground (arith, h, memory) in
            subst
              (λ (x : Running D). is_on_bolt (restore_running x) ≡ (cfg.storage.backend == "bolt"))
              same (sym memory)
      ]

-- Where the process begins to serve, whatever stands in its database: the settings were loaded, the
-- exporter was set up from them, the engine is over the Bolt store exactly if the settings' backend is
-- "bolt" and otherwise over the memory store, its invariants hold over that store once it has restored,
-- each poller that runs has a URL and a key, and the receiver has the settings' sources.
pub start-RunningSound :
    {D : Bolt} (B : Builder) (sys : System) (version : String) (settings : LoadError ⊎ Config)
    (made : Option Metrics) (file : Option D.Db) (p : Started D)
    → start sys version settings made file ≡ inr p
    → ((cfg : Config) × (settings ≡ inr cfg)
        × (new_provider sys (exporter_config version cfg) ≡ inr p.provider)
        × (p.server.sources ≡ cfg.sources)
        × (is_on_bolt p.engine ≡ (cfg.storage.backend == "bolt")))
      × RunningSound B p.engine
      × All HasKey p.pollers
unfolding start receiver_of new_server set_metrics set_scrape_handler
start-RunningSound B sys version (inl e) made file p h = absurd (cc h)
start-RunningSound {D} B sys version (inr cfg) made file p h =
    elim (Sum-cases (new_provider sys (exporter_config version cfg))) [
      | inl (e, refused) ↦ absurd (ground (arith, h, refused))
      | inr (provider, exports) ↦ elim (Sum-cases (open_engine {D = D} cfg file)) [
        | inl (e, failed) ↦ absurd (ground (arith, h, exports, failed))
        | inr (engine, opened) ↦
            let same : p.engine ≡ restore_running engine = ground (arith, h, exports, opened) in
            let listed : p.pollers ≡ pollers_of cfg = ground (arith, h, exports, opened) in
            (
              (
                cfg,
                refl,
                ground (arith, h, exports, opened),
                ground (arith, h, exports, opened),
                ap is_on_bolt same ∙ open_engine-backend B cfg file engine opened,
              ),
              subst (λ (x : Running D). RunningSound B x) (sym same)
                  (open_engine-RunningSound B cfg file engine opened),
              subst (λ (x : List Poller). All HasKey x) (sym listed) (pollers_of-All cfg),
            )
      ]
    ]
