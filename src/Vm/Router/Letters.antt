-- ===== src/Vm/Router/Letters.antt =====
-- What becomes of a message whose handler fails or panics, behind the middleware of the router.
use mathlib.Core.Path.{subst}
use oblak.Prelude.{
  ◌==◌, if◌then◌else◌, if_true, ℕ, zero, suc, ◌+◌, ◌≡◌, refl, sym, ap, ◌∙◌, true, Option, none,
  some, [], ◌∷◌, ◌++◌, arith,
}
use oblak.Text.{Bytes}
use oblak.Sql.{Uuid}
use oblak.Function
use oblak.Function.{Functions, status_of, update_function_status}
use oblak.Function.Laws.{given, status-update}
use oblak.Vm.Service
use oblak.Vm.Service.{BuildMessage, ServiceError}
use oblak.Vm.Queue.{decode_payload, handle_build, publish_build, fail_function}
use oblak.Vm.Router
use oblak.Vm.Router.{
  Ended, fine, panicked, failed, Handler, Publisher, Watermill, max_retries, consumer, Attempts,
  build_attempt, build_handler, build_dlq, build_consumer,
}

module _ {S E : Type 0} (w : Watermill S E) (dlq : Publisher S E) (h : Handler S E) where
  -- The retries are outside, and the dead letters inside.
  consumer-retry : consumer w dlq h ≡ w.retry max_retries (w.recoverer (w.poison_queue dlq h))
  unfolding consumer
  consumer-retry =
      w.wrap-cons (w.retry max_retries) (w.recoverer ∷ w.poison_queue dlq ∷ []) h
      ∙ ap (w.retry max_retries) (
          w.wrap-cons w.recoverer (w.poison_queue dlq ∷ []) h
          ∙ ap w.recoverer
              (w.wrap-cons (w.poison_queue dlq) [] h ∙ ap (w.poison_queue dlq) (w.wrap-nil h)))

  pub consumer_fine : (s t : S) → h s ≡ (t, fine) → consumer w dlq h s ≡ (t, fine)
  consumer_fine s t e =
      ap (λ k. k s) consumer-retry
      ∙ w.retry_fine max_retries _ s t (w.recoverer_fine _ s t (w.poison_fine dlq h s t e))

  -- A message whose handler returns an error is dead after its first attempt.
  pub consumer_lettered :
      (s t u : S) (e : E) → h s ≡ (t, failed e) → dlq t ≡ (u, true) → consumer w dlq h s ≡ (u, fine)
  consumer_lettered s t u e fails published =
      ap (λ k. k s) consumer-retry
      ∙ w.retry_fine max_retries _ s u
          (w.recoverer_fine _ s u (w.poison_published dlq h s t u e fails published))

  module _ (P : S → Type 0) (step : S → S)
      (panics : (s : S) → P s → (h s ≡ (step s, panicked)) × P (step s)) where
    abbrev steps : ℕ → S → S
    steps zero s = step s
    steps (suc n) s = steps n (step s)

    recovers : (s : S) → P s → w.recoverer (w.poison_queue dlq h) s ≡ (step s, failed w.recovered)
    recovers s p =
        w.recoverer_panicked _ s (step s) (w.poison_panicked dlq h s (step s) (panics s p).0)

    retry-steps :
        (n : ℕ) (s : S)
        → P s
        → w.retry n (w.recoverer (w.poison_queue dlq h)) s ≡ (steps n s, failed w.recovered)
    retry-steps zero s p = w.retry_last _ s (step s) w.recovered (recovers s p)
    retry-steps (suc n) s p =
        w.retry_again n _ s (step s) w.recovered (recovers s p)
        ∙ retry-steps n (step s) (panics s p).1

    -- A message whose handler panics each time is tried again as often as the retries allow, and never
    -- gets to the dead letters.
    pub consumer_panicked :
        (s : S) → P s → consumer w dlq h s ≡ (steps max_retries s, failed w.recovered)
    consumer_panicked s p = ap (λ k. k s) consumer-retry ∙ retry-steps max_retries s p

module _ (w : Watermill Attempts ServiceError) (decode : Bytes → Option BuildMessage)
    (payload : Bytes) (s : Attempts) where
  abbrev pub tried : Service.World × Option ServiceError
  tried = handle_build decode payload (s.calls s.attempts) s.world

  -- The platform behind a build that is given up.
  abbrev given_up : Functions → Attempts
  given_up t = record s {
    world = record tried.0 { functions = t };
    attempts = s.attempts + 1;
    dead = s.dead ++ payload ∷ [];
  }

  module _ (m : BuildMessage) (e : ServiceError) (reads : decode_payload decode payload ≡ some m)
      (calm : s.panics s.attempts ≡ none) (fails : tried.1 ≡ some e) (up : s.status_up ≡ true)
      (published : s.publish_ok ≡ true) where
    abbrev failed_table : Functions
    failed_table =
        (update_function_status true m.function_id Function.Status.failed tried.0.functions).0

    dlq-failed :
        build_dlq decode payload (record s { world = tried.0; attempts = s.attempts + 1 })
        ≡ (given_up failed_table, true)
    unfolding publish_build
    dlq-failed =
        if_true _ _ published
        ∙ ap (λ t. (given_up t, true))
            (ap (λ o. fail_function o s.status_up tried.0.functions) reads
              ∙ ap (λ b. fail_function (some m) b tried.0.functions) up)

    build_consumer-given_up : build_consumer w decode payload s ≡ (given_up failed_table, fine)
    unfolding build_consumer
    build_consumer-given_up =
        consumer_lettered w (build_dlq decode payload) (build_handler decode payload) s _ _ e
          (ap (build_attempt decode payload s) calm
            ∙ ap (λ o. (record s { world = tried.0; attempts = s.attempts + 1 }, Router.ended o))
                fails)
          dlq-failed

    -- A build message that reads as one of a function, and whose handler returns an error, is handled
    -- once only, although the router retries three times: where the database and the broker are there,
    -- the message is acknowledged and with the dead letters, and the function is FAILED; every other
    -- function is as the handler left it.
    pub build_consumer_lem :
        let r = build_consumer w decode payload s in
        (r.1 ≡ fine)
        × (r.0.attempts ≡ s.attempts + 1)
        × (r.0.dead ≡ s.dead ++ payload ∷ [])
        × ((id : Uuid)
            → status_of id r.0.world.functions ≡ (
                if m.function_id == id
                then given Function.Status.failed (status_of id tried.0.functions)
                else status_of id tried.0.functions))
    build_consumer_lem =
        let same = sym build_consumer-given_up in
        subst
          (λ (r : Attempts × Ended ServiceError).
            (r.1 ≡ fine)
            × (r.0.attempts ≡ s.attempts + 1)
            × (r.0.dead ≡ s.dead ++ payload ∷ [])
            × ((id : Uuid)
                → status_of id r.0.world.functions ≡ (
                    if m.function_id == id
                    then given Function.Status.failed (status_of id tried.0.functions)
                    else status_of id tried.0.functions)))
          same
          (
            refl,
            refl,
            refl,
            λ id. status-update m.function_id tried.0.functions Function.Status.failed id,
          )

  -- An attempt that panics, and so do those behind it.
  abbrev IsPanicking : (ℕ → Service.World) → Attempts → Type 0
  IsPanicking left t = ((n : ℕ) → t.panics n ≡ some (left n)) × (t.dead ≡ s.dead)

  -- A build message whose handler panics each time is handled four times, and then rejected, so that the
  -- broker delivers it again, with the world that the last attempt left: it does not get to the dead
  -- letters.
  pub build_consumer_panicked :
      (left : ℕ → Service.World)
      → ((n : ℕ) → s.panics n ≡ some (left n))
      → let r = build_consumer w decode payload s in
        (r.1 ≡ failed w.recovered)
        × (r.0.attempts ≡ s.attempts + 4)
        × (r.0.dead ≡ s.dead)
        × (r.0.world ≡ left (s.attempts + 3))
  unfolding build_consumer
  build_consumer_panicked left panics =
      let step =
        λ (t : Attempts). record t { world = left t.attempts; attempts = t.attempts + 1 } in
      let run =
        consumer_panicked w (build_dlq decode payload) (build_handler decode payload)
          (IsPanicking left) step (λ t p. (ap (build_attempt decode payload t) (p.0 t.attempts), p))
          s (panics, refl) in
      subst
        (λ (r : Attempts × Ended ServiceError).
          (r.1 ≡ failed w.recovered)
          × (r.0.attempts ≡ s.attempts + 4)
          × (r.0.dead ≡ s.dead)
          × (r.0.world ≡ left (s.attempts + 3)))
        (sym run) (refl, omega arith, refl, ap left (omega arith))
