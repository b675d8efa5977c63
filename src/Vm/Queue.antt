-- ===== src/Vm/Queue.antt =====
-- internal/vm/queue/handler.go: the handlers of the build queue and of the execute queue, and the
-- publishers of their dead letter queues. `decode` is the JSON decoder, with unknown fields refused.
pub mod Handling
pub mod DeadLetters
use oblak.Prelude.{
  ltb, if◌then◌else◌, length, ℕ, ◌*◌, Bool, true, false, not, Option, none, some, List, [], ◌∷◌,
}
use oblak.Text.{Bytes, bytes_eq, contains_byte, split}
use oblak.FilePath.{slash, dotdot}
use oblak.Function
use oblak.Function.{Status, Function, Functions, update_function_status}
use oblak.Invocation
use oblak.Invocation.{Invocation, Invocations, update_invocation_status}
use oblak.Vm.Service
use oblak.Vm.Service.{
  BuildMessage, ExecuteMessage, ServiceError, World, ServiceCalls, prepare, execute,
}

abbrev pub max_payload_bytes : ℕ
max_payload_bytes = 64 * 1024

abbrev pub max_object_name : ℕ
max_object_name = 1024

-- decodePayload
unfoldable pub decode_payload {ℓ} : {M : Type ℓ} → (Bytes → Option M) → Bytes → Option M
decode_payload decode payload =
    if ltb max_payload_bytes (length payload) then none else decode payload

-- The loop over the segments.
unfoldable pub has_parent : List Bytes → Bool
has_parent [] = false
has_parent (segment ∷ segments) =
    let rest = has_parent segments in if bytes_eq segment dotdot then true else rest

-- validateObjectName
unfoldable pub validate_object_name : Bytes → Bool
validate_object_name [] = false
validate_object_name (c ∷ name) =
    let full = c ∷ name in
    if ltb max_object_name (length full)
    then false
    else if contains_byte 0 full
    then false
    else not (has_parent (split slash full))

-- BuildHandler.Handle
abbrev pub build_decoded : Option BuildMessage → ServiceCalls → World → World × Option ServiceError
build_decoded none c w = (w, none)
build_decoded (some m) c w =
    if not (validate_object_name m.code_object_name) then (w, none) else prepare c m w

unfoldable pub handle_build :
    (Bytes → Option BuildMessage) → Bytes → ServiceCalls → World → World × Option ServiceError
handle_build decode payload c w = build_decoded (decode_payload decode payload) c w

-- ExecuteHandler.Handle
abbrev pub execute_decoded :
    Option ExecuteMessage → ServiceCalls → World → World × Option ServiceError
execute_decoded none c w = (w, none)
execute_decoded (some m) c w =
    if not (validate_object_name m.code_object_name)
    then (w, none)
    else if not (validate_object_name m.dependencies_object_name)
    then (w, none)
    else execute c m w

unfoldable pub handle_execute :
    (Bytes → Option ExecuteMessage) → Bytes → ServiceCalls → World → World × Option ServiceError
handle_execute decode payload c w = execute_decoded (decode_payload decode payload) c w

-- statusFailPublisher.Publish, less the publication itself: the table behind the messages. `up` says
-- for each message whether the database executes its statement.
abbrev pub fail_function : Option BuildMessage → Bool → Functions → Functions
fail_function none up t = t
fail_function (some m) up t = (update_function_status up m.function_id Function.Status.failed t).0

unfoldable pub publish_build :
    (Bytes → Option BuildMessage) → List (Bytes × Bool) → Functions → Functions
publish_build decode [] t = t
publish_build decode ((payload, up) ∷ ms) t =
    publish_build decode ms (fail_function (decode_payload decode payload) up t)

-- executeStatusFailPublisher.Publish
abbrev pub fail_invocation : Option ExecuteMessage → Bool → Invocations → Invocations
fail_invocation none up t = t
fail_invocation (some m) up t =
    (update_invocation_status up m.invocation_id Invocation.Status.failed t).0

unfoldable pub publish_execute :
    (Bytes → Option ExecuteMessage) → List (Bytes × Bool) → Invocations → Invocations
publish_execute decode [] t = t
publish_execute decode ((payload, up) ∷ ms) t =
    publish_execute decode ms (fail_invocation (decode_payload decode payload) up t)
