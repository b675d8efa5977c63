-- ===== src/System/Calls.antt =====
-- The handlers of the two consumers as steps of the platform.
use mathlib.Core.List.{Memᴰ}
use mathlib.Core.Path.{subst}
use oblak.Prelude.{
  arith, ◌≤◌, if_both, ltb, length, Result, ok, not, ◌⊎◌, err, ◌≡◌, refl, sym, inl, inr, Bool, true,
  false, Option, none, some,
}
use oblak.Text.{Bytes}
use oblak.Sql.{DbError}
use oblak.Function
use oblak.Function.{Functions}
use oblak.Analyzer.Listener
use oblak.Analyzer.Listener.{
  Delivery, FunctionMessage, BuildMessage, Ended, receive, process_message,
}
use oblak.Analyzer.Listener.Effects.{receive-either}
use oblak.Analyzer.Listener.Gate.{process_message-receive}
use oblak.Vm.Runner.{prepare_environment}
use oblak.Vm.Service
use oblak.Vm.Service.{ServiceCalls, ServiceError, prepare, prepare_with, ran}
use oblak.Vm.Queue.{
  max_payload_bytes, decode_payload, validate_object_name, build_decoded, handle_build,
}
use oblak.System.{
  Platform, analyzer_world, vm_world, with_status, claimed_with, lands, analyses, claims_build,
  settles_build, Reach, here, next, steps,
}

-- The platform can get to the world that a message of the analyzer's queue leaves, in two steps at most.
abbrev pub GetsTo : Platform → Listener.World → Type 0
GetsTo s w = (t : Platform) × (r : Reach s t) × (steps r ≤ 2) × (analyzer_world t t.workspace ≡ w)

receive-GetsTo :
    (s : Platform) (d : Delivery) (m : FunctionMessage)
    → d.payload ≡ some m
    → Memᴰ m s.messages
    → GetsTo s (receive d m (analyzer_world s s.workspace)).0
unfolding steps
receive-GetsTo s d m decoded sent =
    let landed : Reach s (with_status d.land_up m.function_id Function.scanning s) =
      next here (lands d.land_up m sent) in
    receive-either (GetsTo s) d m (analyzer_world s s.workspace) (_, landed, omega arith, refl)
      (_, next landed (analyses d m decoded sent), omega arith, refl)

process_message-GetsTo :
    (s : Platform) (d : Delivery) (m : FunctionMessage)
    → d.payload ≡ some m
    → Memᴰ m s.messages
    → GetsTo s (process_message d (analyzer_world s s.workspace)).0
process_message-GetsTo s d m decoded sent =
    subst (λ (r : Listener.World × Ended). GetsTo s r.0)
      (sym (process_message-receive d m (analyzer_world s s.workspace) decoded))
      (receive-GetsTo s d m decoded sent)

-- The message as the service of the machines reads it.
abbrev pub read_build : BuildMessage → Service.BuildMessage
read_build b = record { function_id = b.function_id; code_object_name = b.code_object_name }

-- The platform can get to the table that a build leaves, in two steps at most.
abbrev pub GetsToTable : Platform → Functions → Type 0
GetsToTable s fs = (t : Platform) × (r : Reach s t) × (steps r ≤ 2) × (t.functions ≡ fs)

claimed_build :
    (s : Platform) (c : ServiceCalls) (b : BuildMessage) (w : Service.World) (t : Functions)
    (r : Result DbError Bool)
    → (reach : Reach s (claimed_with b (t, r) s)) → steps reach ≤ 1
    → GetsToTable s
        (prepare_with c b.function_id r (record (vm_world s w) { functions = t })).0.functions
unfolding steps
claimed_build s c b w t (err e) reach n = (claimed_with b (t, err e) s, reach, omega arith, refl)
claimed_build s c b w t (ok false) reach n =
    (claimed_with b (t, ok false) s, reach, omega arith, refl)
claimed_build s c b w t (ok true) reach n =
    let r = prepare_environment c.run c.drive_name c.log_name w.host in
    (
      _,
      next reach
          (settles_build c.settle_up c.drive_name b r.2 (ran r (vm_world s w)) (Memᴰ.head refl)),
      omega arith,
      refl,
    )

prepare-GetsToTable :
    (s : Platform) (c : ServiceCalls) (b : BuildMessage) (w : Service.World)
    → Memᴰ b s.builds
    → GetsToTable s (prepare c (read_build b) (vm_world s w)).0.functions
unfolding prepare steps
prepare-GetsToTable s c b w among =
    let (t, r) =
      Function.update_function_status_if c.claim_up b.function_id Function.verified
        Function.preparing_environment s.functions in
    claimed_build s c b w t r (next here (claims_build c.claim_up b among)) (omega arith)

build_decoded-GetsToTable :
    (s : Platform) (o : Option Service.BuildMessage) (b : BuildMessage) (c : ServiceCalls)
    (w : Service.World)
    → Memᴰ b s.builds
    → (o ≡ none) ⊎ (o ≡ some (read_build b))
    → GetsToTable s (build_decoded o c (vm_world s w)).0.functions
unfolding steps
build_decoded-GetsToTable s o b c w among (inl e) =
    subst (λ x. GetsToTable s (build_decoded x c (vm_world s w)).0.functions) (sym e)
      (s, here, omega arith, refl)
build_decoded-GetsToTable s o b c w among (inr e) =
    subst (λ x. GetsToTable s (build_decoded x c (vm_world s w)).0.functions) (sym e)
      (if_both (λ (r : Service.World × Option ServiceError). GetsToTable s r.0.functions)
        (not (validate_object_name b.code_object_name)) (s, here, omega arith, refl)
        (prepare-GetsToTable s c b w among))

-- A message that the analyzer processes leaves its world as at most two steps of the platform do, and a
-- payload that reads as a build of the queue leaves the table as at most two steps do, whatever the calls
-- of both meet.
pub calls-Reach :
    (s : Platform) (d : Delivery) (m : FunctionMessage)
    (decode : Bytes → Option Service.BuildMessage) (payload : Bytes) (b : BuildMessage)
    (c : ServiceCalls) (w : Service.World)
    → d.payload ≡ some m
    → Memᴰ m s.messages
    → decode payload ≡ some (read_build b)
    → Memᴰ b s.builds
    → GetsTo s (process_message d (analyzer_world s s.workspace)).0
      × GetsToTable s (handle_build decode payload c (vm_world s w)).0.functions
unfolding handle_build decode_payload
calls-Reach s d m decode payload b c w decoded sent reads among = (
  process_message-GetsTo s d m decoded sent,
  build_decoded-GetsToTable s (decode_payload decode payload) b c w among (
      if_both (λ o. (o ≡ none) ⊎ (o ≡ some (read_build b))) (ltb max_payload_bytes (length payload))
        (inl refl) (inr reads)),
)
