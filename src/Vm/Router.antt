-- ===== src/Vm/Router.antt =====
-- internal/vm/queue/router.go: the consumers of the build queue and of the execute queue, with the
-- middleware around their handlers. Watermill is a parameter.
pub mod Letters
pub mod Setup
use oblak.Prelude.{
  if◌then◌else◌, Result, err, ok, ℕ, zero, suc, ◌+◌, ◌≡◌, Bool, true, false, not, Option, none,
  some, List, [], ◌∷◌, ◌++◌,
}
use oblak.AgentProto.{ℤ, pos, negsuc}
use oblak.Text.{Bytes}
use oblak.Vm.Service
use oblak.Vm.Service.{BuildMessage, ExecuteMessage, ServiceCalls, ServiceError}
use oblak.Vm.Queue.{handle_build, handle_execute, publish_build, publish_execute}

-- How a call of a handler for one message ends.
pub data Ended (E : Type 0) : Type 0 where
  fine panicked : Ended E
  failed : E → Ended E

module _ (S E : Type 0) where
  abbrev pub Handler : Type 0
  Handler = S → S × Ended E

  -- A publisher of one message: whether it is published.
  abbrev pub Publisher : Type 0
  Publisher = S → S × Bool

  -- The router and the middleware of Watermill, as documented: what is added first is executed first;
  -- Retry calls a handler that returns an error again, as often as MaxRetries says; Recoverer makes an
  -- error of a panic; PoisonQueue publishes a message whose handler returns an error, and goes on as if
  -- there was none where it is published. None but Recoverer stops a panic.
  pub record Watermill : Type 0 where
    pub wrap : List (Handler → Handler) → Handler → Handler
    pub retry : ℕ → Handler → Handler
    pub recoverer : Handler → Handler
    pub poison_queue : Publisher → Handler → Handler
    pub recovered : E
    pub not_published : E → E
    pub wrap-nil : (h : Handler) → wrap [] h ≡ h
    pub wrap-cons :
        (m : Handler → Handler) (ms : List (Handler → Handler)) (h : Handler)
        → wrap (m ∷ ms) h ≡ m (wrap ms h)
    pub retry_fine : (n : ℕ) (h : Handler) (s t : S) → h s ≡ (t, fine) → retry n h s ≡ (t, fine)
    pub retry_panicked :
        (n : ℕ) (h : Handler) (s t : S) → h s ≡ (t, panicked) → retry n h s ≡ (t, panicked)
    pub retry_last :
        (h : Handler) (s t : S) (e : E) → h s ≡ (t, failed e) → retry zero h s ≡ (t, failed e)
    pub retry_again :
        (n : ℕ) (h : Handler) (s t : S) (e : E)
        → h s ≡ (t, failed e)
        → retry (suc n) h s ≡ retry n h t
    pub recoverer_panicked :
        (h : Handler) (s t : S) → h s ≡ (t, panicked) → recoverer h s ≡ (t, failed recovered)
    pub recoverer_fine : (h : Handler) (s t : S) → h s ≡ (t, fine) → recoverer h s ≡ (t, fine)
    pub recoverer_failed :
        (h : Handler) (s t : S) (e : E) → h s ≡ (t, failed e) → recoverer h s ≡ (t, failed e)
    pub poison_fine :
        (p : Publisher) (h : Handler) (s t : S) → h s ≡ (t, fine) → poison_queue p h s ≡ (t, fine)
    pub poison_panicked :
        (p : Publisher) (h : Handler) (s t : S)
        → h s ≡ (t, panicked)
        → poison_queue p h s ≡ (t, panicked)
    pub poison_published :
        (p : Publisher) (h : Handler) (s t u : S) (e : E)
        → h s ≡ (t, failed e)
        → p t ≡ (u, true)
        → poison_queue p h s ≡ (u, fine)
    pub poison_refused :
        (p : Publisher) (h : Handler) (s t u : S) (e : E)
        → h s ≡ (t, failed e)
        → p t ≡ (u, false)
        → poison_queue p h s ≡ (u, failed (not_published e))

abbrev pub max_retries : ℕ
max_retries = 3

-- The handler of one consumer behind the middleware: what the router has, and then its own.
unfoldable pub consumer : {S E : Type 0} → Watermill S E → Publisher S E → Handler S E → Handler S E
consumer w dlq handler =
    w.wrap (w.retry max_retries ∷ w.recoverer ∷ w.poison_queue dlq ∷ []) handler

-- What the attempts for one message meet: the calls of each, or the world that one
-- which panics leaves; whether the database
-- and the broker do what the dead letter publisher asks; and the dead letters so far.
pub record Attempts : Type 0 where
  pub world : Service.World
  pub calls : ℕ → ServiceCalls
  pub panics : ℕ → Option Service.World
  pub attempts : ℕ
  pub status_up : Bool
  pub publish_ok : Bool
  pub dead : List Bytes

abbrev pub ended : Option ServiceError → Ended ServiceError
ended none = fine
ended (some e) = failed e

abbrev attempted : Attempts → Service.World × Option ServiceError → Attempts × Ended ServiceError
attempted s (w, e) = (record s { world = w; attempts = s.attempts + 1 }, ended e)

abbrev pub crashed : Attempts → Service.World → Attempts × Ended ServiceError
crashed s w = (record s { world = w; attempts = s.attempts + 1 }, panicked)

abbrev pub build_attempt :
    (Bytes → Option BuildMessage)
    → Bytes
    → Attempts
    → Option Service.World
    → Attempts × Ended ServiceError
build_attempt decode payload s (some w) = crashed s w
build_attempt decode payload s none =
    attempted s (handle_build decode payload (s.calls s.attempts) s.world)

abbrev pub build_handler : (Bytes → Option BuildMessage) → Bytes → Handler Attempts ServiceError
build_handler decode payload s = build_attempt decode payload s (s.panics s.attempts)

abbrev execute_attempt :
    (Bytes → Option ExecuteMessage)
    → Bytes
    → Attempts
    → Option Service.World
    → Attempts × Ended ServiceError
execute_attempt decode payload s (some w) = crashed s w
execute_attempt decode payload s none =
    attempted s (handle_execute decode payload (s.calls s.attempts) s.world)

abbrev pub execute_handler : (Bytes → Option ExecuteMessage) → Bytes → Handler Attempts ServiceError
execute_handler decode payload s = execute_attempt decode payload s (s.panics s.attempts)

-- The publishers that the poison queues are given: the status, and then the message.
abbrev lettered : Bytes → Attempts → Attempts × Bool
lettered payload s =
    if s.publish_ok then (record s { dead = s.dead ++ payload ∷ [] }, true) else (s, false)

abbrev pub build_dlq : (Bytes → Option BuildMessage) → Bytes → Publisher Attempts ServiceError
build_dlq decode payload s =
    let t = publish_build decode ((payload, s.status_up) ∷ []) s.world.functions in
    lettered payload (record s { world = record s.world { functions = t } })

abbrev pub execute_dlq : (Bytes → Option ExecuteMessage) → Bytes → Publisher Attempts ServiceError
execute_dlq decode payload s =
    let t = publish_execute decode ((payload, s.status_up) ∷ []) s.world.invocations in
    lettered payload (record s { world = record s.world { invocations = t } })

unfoldable pub build_consumer :
    Watermill Attempts ServiceError
    → (Bytes → Option BuildMessage)
    → Bytes
    → Handler Attempts ServiceError
build_consumer w decode payload =
    consumer w (build_dlq decode payload) (build_handler decode payload)

unfoldable pub execute_consumer :
    Watermill Attempts ServiceError
    → (Bytes → Option ExecuteMessage)
    → Bytes
    → Handler Attempts ServiceError
execute_consumer w decode payload =
    consumer w (execute_dlq decode payload) (execute_handler decode payload)
