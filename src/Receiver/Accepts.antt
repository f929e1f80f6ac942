-- ===== src/Receiver/Accepts.antt =====
-- internal/receiver/handlers.go: what a handler has checked where it answers 200, and that it
-- leaves the engine alone where it does not.
use tracearr.Prelude.{
  ◌≡◌, refl, Bool, true, false, not, List, [], ◌∷◌, Option, none, some, inl, inr, ◌⊎◌,
  if◌then◌else◌, nat_beq,
}
use tracearr.Event.{Event}
use tracearr.Store.{Store}
use tracearr.Engine.Calls.{Context, Builder}
use tracearr.Engine.State.{Engine}
use tracearr.Engine.Process.{process_all}
use tracearr.Parsers.Result.{Parsed, refused, parsed}
use tracearr.Config.{AppSource}
use tracearr.Prelude.Lists.{Bytes}
use tracearr.Receiver.Auth.{verify_hmac_sha256, verify_bearer}
use tracearr.Receiver.Handlers.{
  Body, received, too_large, broken, Request, Response, source_disabled, unauthorized, accepted,
  deliver_events, deliver_event, with_body, handle_overseerr, handle_script, handle_signed,
  handle_arr,
}

module _ (B : Builder) {S : Store} where
  -- The answer is no 200, and the engine is as it was.
  abbrev pub Rejects : Engine S → Response × Engine S → Type 0
  Rejects e answer = (nat_beq answer.0.status 200 ≡ false) × (answer.1 ≡ e)

  -- The answer is 200, and the engine has processed these events in order.
  abbrev pub Processes : Context → List Event → Engine S → Response × Engine S → Type 0
  Processes ctx evs e answer = (answer.0.status ≡ 200) × (answer.1 ≡ process_all B ctx evs e)

  -- The body was read and parsed into these events, and the engine has processed them.
  abbrev pub Parses :
      (Bytes → Parsed (List Event)) → Context → Engine S → Bytes → Response × Engine S → Type 0
  Parses parse ctx e body answer =
      (evs : List Event) × ((parse body ≡ parsed evs) × Processes ctx evs e answer)

  -- The body was read, and then this holds of it and of the answer.
  abbrev pub Reads : Body → (Bytes → Response × Engine S → Type 0) → Response × Engine S → Type 0
  Reads b Q answer = (body : Bytes) × ((b ≡ received body) × Q body answer)

  guard-cases :
      (c : Bool) (refusal : Response) (e : Engine S) (answer : Response × Engine S)
      (Q : Response × Engine S → Type 0)
      → nat_beq refusal.status 200 ≡ false
      → Rejects e answer ⊎ Q answer
      → let guarded = if not c then (refusal, e) else answer in
        Rejects e guarded ⊎ ((c ≡ true) × Q guarded)
  guard-cases true refusal e answer Q no_ok (inl rejects) = inl rejects
  guard-cases true refusal e answer Q no_ok (inr goes) = inr (refl, goes)
  guard-cases false refusal e answer Q no_ok h = inl (no_ok, refl)

  with_body-cases :
      (b : Body) (next : Bytes → Response × Engine S) (e : Engine S)
      (Q : Bytes → Response × Engine S → Type 0)
      → ((body : Bytes) → Rejects e (next body) ⊎ Q body (next body))
      → Rejects e (with_body B b next e) ⊎ Reads b Q (with_body B b next e)
  unfolding with_body
  with_body-cases (received body) next e Q each = elim (each body) [
    | inl rejects ↦ inl rejects
    | inr goes ↦ inr (body, (refl, goes))
  ]
  with_body-cases too_large next e Q each = inl (refl, refl)
  with_body-cases broken next e Q each = inl (refl, refl)

  deliver_events-cases :
      (ctx : Context) (parse : Bytes → Parsed (List Event)) (body : Bytes) (e : Engine S)
      → Rejects e (deliver_events B ctx (parse body) e)
        ⊎ Parses parse ctx e body (deliver_events B ctx (parse body) e)
  unfolding deliver_events accepted
  deliver_events-cases ctx parse body e = of_result (parse body) refl
    where
      of_result :
          (result : Parsed (List Event))
          → parse body ≡ result
          → Rejects e (deliver_events B ctx result e)
            ⊎ Parses parse ctx e body (deliver_events B ctx result e)
      of_result (refused why) same = inl (refl, refl)
      of_result (parsed []) same = inr ([], (same, (refl, refl)))
      of_result (parsed (ev ∷ evs)) same = inr (ev ∷ evs, (same, (refl, refl)))

  -- A script's handler either leaves the engine as it was and answers no 200, or the source is
  -- enabled, the bearer token is verified, the body has been read and parsed, the engine has
  -- processed its events in order, and the answer is 200.
  pub handle_script-cases :
      (app : AppSource) (parse : Bytes → Parsed (List Event)) (r : Request) (e : Engine S)
      → let answer = handle_script B app parse r e in
        Rejects e answer
        ⊎ ((app.enabled ≡ true)
            × ((verify_bearer r.authorization app.script_token ≡ true)
                × Reads r.body (Parses parse r.context e) answer))
  unfolding handle_script
  handle_script-cases app parse r e =
      guard-cases app.enabled source_disabled e _
        (λ answer.
          (verify_bearer r.authorization app.script_token ≡ true)
          × Reads r.body (Parses parse r.context e) answer)
        refl
        (guard-cases (verify_bearer r.authorization app.script_token) unauthorized e _
          (Reads r.body (Parses parse r.context e)) refl
          (with_body-cases r.body (λ body. deliver_events B r.context (parse body) e) e
            (Parses parse r.context e) (λ body. deliver_events-cases r.context parse body e)))

  module _ (trim_space : Bytes → Bytes) (hmac_sha256 : Bytes → Bytes → Bytes) where
    -- The handler of Sonarr and Radarr either leaves the engine as it was and answers no 200, or
    -- the source is enabled, the body has been read, the signature is verified over this body, it
    -- has been parsed, the engine has processed its events in order, and the answer is 200.
    pub handle_arr-cases :
        (app : AppSource) (parse : Bytes → Parsed (List Event)) (r : Request) (e : Engine S)
        → let answer = handle_arr B trim_space hmac_sha256 app parse r e in
          Rejects e answer
          ⊎ ((app.enabled ≡ true)
              × Reads r.body
                  (λ body answer.
                    (verify_hmac_sha256 trim_space hmac_sha256 r.signature app.webhook_secret body
                      ≡ true)
                    × Parses parse r.context e body answer)
                  answer)
    unfolding handle_arr handle_signed
    handle_arr-cases app parse r e =
        let Q : Bytes → Response × Engine S → Type 0 = λ body answer.
          (verify_hmac_sha256 trim_space hmac_sha256 r.signature app.webhook_secret body ≡ true)
          × Parses parse r.context e body answer in
        guard-cases app.enabled source_disabled e _ (Reads r.body Q) refl (
          with_body-cases r.body (handle_signed B trim_space hmac_sha256 app parse r e) e Q (λ body.
            guard-cases
              (verify_hmac_sha256 trim_space hmac_sha256 r.signature app.webhook_secret body)
              unauthorized e _ (Parses parse r.context e body) refl
              (deliver_events-cases r.context parse body e)))

  -- The body was read and parsed: no event, and the engine is as it was, or one that it has
  -- processed.
  abbrev pub ParsesOne :
      (Bytes → Parsed (Option Event)) → Context → Engine S → Bytes → Response × Engine S → Type 0
  ParsesOne parse ctx e body answer =
      (found : Option Event) × ((parse body ≡ parsed found)
        × Processes ctx (elim found [ none ↦ [] | some ev ↦ ev ∷ [] ]) e answer)

  deliver_event-cases :
      (ctx : Context) (parse : Bytes → Parsed (Option Event)) (body : Bytes) (e : Engine S)
      → Rejects e (deliver_event B ctx (parse body) e)
        ⊎ ParsesOne parse ctx e body (deliver_event B ctx (parse body) e)
  unfolding deliver_event accepted process_all
  deliver_event-cases ctx parse body e = of_result (parse body) refl
    where
      of_result :
          (result : Parsed (Option Event))
          → parse body ≡ result
          → Rejects e (deliver_event B ctx result e)
            ⊎ ParsesOne parse ctx e body (deliver_event B ctx result e)
      of_result (refused why) same = inl (refl, refl)
      of_result (parsed none) same = inr (none, (same, (refl, refl)))
      of_result (parsed (some ev)) same = inr (some ev, (same, (refl, refl)))

  -- The handler of Overseerr and Jellyseerr either leaves the engine as it was and answers no 200,
  -- or the source is enabled, the bearer token is verified, the body has been read and parsed, the
  -- engine has processed its event, where it is one, and the answer is 200.
  pub handle_overseerr-cases :
      (app : AppSource) (parse : Bytes → Parsed (Option Event)) (r : Request) (e : Engine S)
      → let answer = handle_overseerr B app parse r e in
        Rejects e answer
        ⊎ ((app.enabled ≡ true)
            × ((verify_bearer r.authorization app.webhook_secret ≡ true)
                × Reads r.body (ParsesOne parse r.context e) answer))
  unfolding handle_overseerr
  handle_overseerr-cases app parse r e =
      guard-cases app.enabled source_disabled e _
        (λ answer.
          (verify_bearer r.authorization app.webhook_secret ≡ true)
          × Reads r.body (ParsesOne parse r.context e) answer)
        refl
        (guard-cases (verify_bearer r.authorization app.webhook_secret) unauthorized e _
          (Reads r.body (ParsesOne parse r.context e)) refl
          (with_body-cases r.body (λ body. deliver_event B r.context (parse body) e) e
            (ParsesOne parse r.context e) (λ body. deliver_event-cases r.context parse body e)))
