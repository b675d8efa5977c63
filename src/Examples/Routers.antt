-- ===== src/Examples/Routers.antt =====
-- The consumers behind a middleware of the documented behaviour, and the set-up of the router.
use oblak.Prelude.{
  ◌==◌, if◌then◌else◌, ok, ℕ, zero, suc, ◌+◌, ◌≡◌, refl, ap, ◌∙◌, ◌↔◌, ◌⊎◌, Bool, ◌&&◌, true, false,
  Option, none, some, List, [], ◌∷◌, ◌++◌,
}
use oblak.AgentProto.{ℤ, pos}
use oblak.Text.{Bytes, codes, bytes_eq, bytes_eq_iff, contains_byte, split}
use oblak.Sql
use oblak.Sql.{Uuid}
use oblak.Function
use oblak.Function.{status_of, update_function_status, update_function_status_if}
use oblak.Function.Laws.{given}
use oblak.Vm.Service
use oblak.Vm.Service.{ServiceError, prepare}
use oblak.Vm.Queue.{decode_payload, handle_build, validate_object_name, has_parent, publish_build}
use oblak.Vm.Router.{
  Ended, fine, panicked, failed, Handler, Publisher, Watermill, Attempts, consumer, build_consumer,
}
use oblak.Vm.Router.Letters.{tried, build_consumer_lem, build_consumer_panicked}
use oblak.Vm.Router.Setup.{
  SetupCalls, VmRouter, TurnsOff, AskedFor, new_vm_router, subscribe, new_vm_router-load,
}
use oblak.Vm.Config.{
  Environment, get_env_int, load, build_topic, execute_topic, prepare_env_consumer_config,
  execute_consumer_config, publisher_config,
}
use oblak.Vm.Config.Routing.{Broker, Delivers, load-Delivers}
use oblak.Examples.Handlers

module _ (S E : Type 0) (e : E) where
  abbrev wrap : List (Handler S E → Handler S E) → Handler S E → Handler S E
  wrap [] h = h
  wrap (m ∷ ms) h = m (wrap ms h)

  abbrev again : Handler S E → S × Ended E → S × Ended E
  again next (s, failed x) = next s
  again next (s, fine) = (s, fine)
  again next (s, panicked) = (s, panicked)

  retry : ℕ → Handler S E → Handler S E
  retry zero h s = h s
  retry (suc n) h s = again (retry n h) (h s)

  abbrev caught : S × Ended E → S × Ended E
  caught (s, panicked) = (s, failed e)
  caught (s, fine) = (s, fine)
  caught (s, failed x) = (s, failed x)

  abbrev published : E → S × Bool → S × Ended E
  published x (s, true) = (s, fine)
  published x (s, false) = (s, failed x)

  abbrev salvaged : Publisher S E → S × Ended E → S × Ended E
  salvaged p (s, failed x) = published x (p s)
  salvaged p (s, fine) = (s, fine)
  salvaged p (s, panicked) = (s, panicked)

  retry_fine : (n : ℕ) (h : Handler S E) (s t : S) → h s ≡ (t, fine) → retry n h s ≡ (t, fine)
  unfolding retry
  retry_fine zero h s t k = k
  retry_fine (suc n) h s t k = ap (again (retry n h)) k

  retry_panicked :
      (n : ℕ) (h : Handler S E) (s t : S) → h s ≡ (t, panicked) → retry n h s ≡ (t, panicked)
  unfolding retry
  retry_panicked zero h s t k = k
  retry_panicked (suc n) h s t k = ap (again (retry n h)) k

  retry_again :
      (n : ℕ) (h : Handler S E) (s t : S) (x : E)
      → h s ≡ (t, failed x)
      → retry (suc n) h s ≡ retry n h t
  unfolding retry
  retry_again n h s t x k = ap (again (retry n h)) k

  retry_last :
      (h : Handler S E) (s t : S) (x : E) → h s ≡ (t, failed x) → retry zero h s ≡ (t, failed x)
  unfolding retry
  retry_last h s t x k = k

  abbrev middleware : Watermill S E
  middleware = record {
    wrap = wrap;
    retry = retry;
    recoverer = λ h s. caught (h s);
    poison_queue = λ p h s. salvaged p (h s);
    recovered = e;
    not_published = λ x. x;
    wrap-nil = λ h. refl;
    wrap-cons = λ m ms h. refl;
    retry_fine = retry_fine;
    retry_panicked = retry_panicked;
    retry_last = retry_last;
    retry_again = retry_again;
    recoverer_panicked = λ h s t k. ap caught k;
    recoverer_fine = λ h s t k. ap caught k;
    recoverer_failed = λ h s t x k. ap caught k;
    poison_fine = λ p h s t k. ap (salvaged p) k;
    poison_panicked = λ p h s t k. ap (salvaged p) k;
    poison_published = λ p h s t u x k q. ap (salvaged p) k ∙ ap (published x) q;
    poison_refused = λ p h s t u x k q. ap (salvaged p) k ∙ ap (published x) q;
  }

abbrev unreached : ServiceError
unreached = Service.store_failed Sql.unreachable

abbrev watermill : Watermill Attempts ServiceError
watermill = middleware Attempts ServiceError unreached

-- The database does not execute the claim of the first attempt.
abbrev attempts : (ℕ → Option Service.World) → Attempts
attempts panics = record {
  world = Handlers.world;
  calls = λ n. record Handlers.calls { claim_up = false };
  panics = panics;
  attempts = 0;
  status_up = true;
  publish_ok = true;
  dead = [];
}

abbrev decode : Bytes → Option Service.BuildMessage
decode s = if bytes_eq s (codes "message") then some Handlers.build_message else none

build_consumer_lem_example :
    let s = attempts (λ n. none) in
    let r = build_consumer watermill decode (codes "message") s in
    let t = tried watermill decode (codes "message") s in
    (r.1 ≡ fine)
    × (r.0.attempts ≡ 0 + 1)
    × (r.0.dead ≡ [] ++ codes "message" ∷ [])
    × ((id : Uuid)
        → status_of id r.0.world.functions ≡ (
            if 7 == id
            then given Function.Status.failed (status_of id t.0.functions)
            else status_of id t.0.functions))
unfolding handle_build decode_payload bytes_eq validate_object_name contains_byte has_parent split
    prepare update_function_status_if
build_consumer_lem_example =
    build_consumer_lem watermill decode (codes "message") (attempts (λ n. none))
      Handlers.build_message unreached refl refl refl refl refl

build_consumer_panicked_example :
    let s = attempts (λ n. some Handlers.world) in
    let r = build_consumer watermill decode (codes "message") s in
    (r.1 ≡ failed unreached)
    × (r.0.attempts ≡ 0 + 4)
    × (r.0.dead ≡ [])
    × (r.0.world ≡ Handlers.world)
build_consumer_panicked_example =
    build_consumer_panicked watermill decode (codes "message") (attempts (λ n. some Handlers.world))
      (λ n. Handlers.world) (λ n. refl)

-- The middleware at work: one attempt, one dead letter.
dead_test :
    (build_consumer watermill decode (codes "message") (attempts (λ n. none))).0.dead
    ≡ codes "message" ∷ []
unfolding build_consumer consumer retry publish_build handle_build decode_payload bytes_eq
    validate_object_name contains_byte has_parent split prepare update_function_status_if
    update_function_status
dead_test = refl

abbrev setup : SetupCalls
setup = record {
  dlq_ok = true;
  poison_ok = true;
  exe_dlq_ok = true;
  exe_poison_ok = true;
  router_ok = true;
  build_ok = λ i. true;
  execute_ok = λ i. true;
}

-- Builds are turned off, and the executions have the default.
abbrev atoi : Bytes → Option ℤ
atoi s = if bytes_eq s (codes "0") then some (pos 0) else none

abbrev environment : Environment
environment key = if bytes_eq key (codes "MAX_CONCURRENT_BUILDS") then codes "0" else []

abbrev router : VmRouter
router = record { builds = 0; executes = 20 }

router_test : (new_vm_router setup (load atoi environment)).0 ≡ ok router
unfolding new_vm_router load get_env_int subscribe bytes_eq
router_test = refl

new_vm_router-load_example :
    ((router.builds ≡ 0) ↔ TurnsOff atoi (environment (codes "MAX_CONCURRENT_BUILDS")))
    × ((router.executes ≡ 0) ↔ TurnsOff atoi (environment (codes "MAX_CONCURRENT_EXECUTES")))
    × AskedFor atoi 3 (environment (codes "MAX_CONCURRENT_BUILDS")) router.builds
    × AskedFor atoi 20 (environment (codes "MAX_CONCURRENT_EXECUTES")) router.executes
new_vm_router-load_example = new_vm_router-load setup atoi environment router router_test

-- A direct exchange that compares its keys.
direct_iff :
    (exchange key binding : Bytes)
    → (bytes_eq (codes "direct") (codes "direct") && bytes_eq key binding ≡ true) ↔ (key ≡ binding)
unfolding bytes_eq
direct_iff exchange key binding = bytes_eq_iff key binding

abbrev broker : Broker
broker = record {
  reaches = λ exchange kind key binding. bytes_eq kind (codes "direct") && bytes_eq key binding;
  direct = direct_iff;
}

load-Delivers_example :
    let cfg = load atoi environment in
    let to_build = λ (topic : Bytes).
      Delivers broker (publisher_config cfg) topic (prepare_env_consumer_config cfg) [] in
    let to_execute = λ (topic : Bytes).
      Delivers broker (publisher_config cfg) topic (execute_consumer_config cfg) [] in
    (to_build build_topic ↔ (
      (environment (codes "BUILD_QUEUE_NAME") ≡ [])
      ⊎ (environment (codes "BUILD_QUEUE_NAME") ≡ build_topic)))
    × (to_execute execute_topic ↔ (
        (environment (codes "EXECUTE_QUEUE_NAME") ≡ [])
        ⊎ (environment (codes "EXECUTE_QUEUE_NAME") ≡ execute_topic)))
    × (to_build cfg.build_dlq_name ↔ (cfg.build_dlq_name ≡ cfg.build_queue_name))
    × (to_execute cfg.execute_dlq_name ↔ (cfg.execute_dlq_name ≡ cfg.execute_queue_name))
    × (to_execute cfg.build_dlq_name ↔ (cfg.build_dlq_name ≡ cfg.execute_queue_name))
    × (to_build cfg.execute_dlq_name ↔ (cfg.execute_dlq_name ≡ cfg.build_queue_name))
load-Delivers_example = load-Delivers broker atoi environment []
