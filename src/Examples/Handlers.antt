-- ===== src/Examples/Handlers.antt =====
-- The services and the queue handlers of the virtual machines at concrete inputs.
use oblak.Prelude.{
  ℕ, if◌then◌else◌, ◌≡◌, ◌⊎◌, refl, Bool, true, false, Option, none, some, List, [], ◌∷◌, ◌++◌,
}
use oblak.Text.{Bytes, codes, bytes_eq, has_prefix, contains_byte, split}
use oblak.Sql.{Uuid, update, affected, select_one}
use oblak.AgentProto.{Message, build}
use oblak.Function
use oblak.Function.{
  Status, verified, Function, update_function_status_if, update_function_status_and_drive_path,
}
use oblak.Function.Laws as FunctionLaws
use oblak.Invocation
use oblak.Invocation.{pending, Invocation}
use oblak.Invocation.Laws as InvocationLaws
use oblak.Vm.Connect.{connect}
use oblak.Vm.Stream.{stream}
use oblak.Vm.Drive.{minio_upload_drive, archive_drive}
use oblak.Vm.Runner
use oblak.Vm.Runner.{
  started, sent, logged, stopped, saved, cleaned, converse, run_machine, prepare_environment,
}
use oblak.Vm.Runner.Answers.{IsAnswered, lines_of}
use oblak.Vm.Runner.Build.{IsZeroExit}
use oblak.Vm.Runner.Success.{IsBooted}
use oblak.Vm.Service
use oblak.Vm.Service.{BuildMessage, ExecuteMessage, World, ServiceCalls, prepare}
use oblak.Vm.Service.Outcomes.{prepare_ready}
use oblak.Vm.Service.Execution.{status_executed, reported_executed, execute_lem}
use oblak.Vm.Queue.{has_parent, validate_object_name}
use oblak.Vm.Service.Workers.{Reach}
use oblak.Vm.Service.Steps.{IsSkipped, IsRun, execute-Reach}
use oblak.Examples.Tables.{functions, invocations, functions-IsKeyed, invocations-IsKeyed}
use oblak.Examples.Machines.{host, run_calls}

abbrev pub world : World
world = record { functions = functions; invocations = invocations; host = host; events = [] }

abbrev pub calls : ServiceCalls
calls = record {
  claim_up = true;
  settle_up = true;
  run = run_calls;
  log_name = codes "1.log";
  drive_name = codes "d.ext4";
  end_time = 200;
}

abbrev pub build_message : BuildMessage
build_message = record { function_id = 7; code_object_name = codes "1/code.tar.gz" }

abbrev execute_message : ExecuteMessage
execute_message = record {
  invocation_id = 20;
  code_object_name = codes "1/code.tar.gz";
  dependencies_object_name = codes "d.ext4";
  payload = codes "{}";
}

ready_test :
    Function.status_of 7 (prepare calls build_message world).0.functions
    ≡ some Function.Status.ready
unfolding prepare prepare_environment run_machine converse connect stream archive_drive
    minio_upload_drive has_prefix update_function_status_if update_function_status_and_drive_path
    affected select_one update
ready_test = refl

verified_test :
    FunctionLaws.has_status Function.Status.verified (Function.status_of 7 functions) ≡ true
unfolding select_one
verified_test = refl

prepare_ready_example :
    IsBooted run_calls host
    × ((x : Message) × IsAnswered run_calls x × IsZeroExit x)
    × ((prepare calls build_message world).0.events
        ≡ []
          ++ started
            ∷ sent build
            ∷ logged (codes "1.log") (lines_of run_calls)
            ∷ stopped
            ∷ saved (codes "d.ext4")
            ∷ cleaned
            ∷ [])
prepare_ready_example =
    prepare_ready calls build_message world functions-IsKeyed (refl, refl) verified_test ready_test

execute_lem_example :
    let (w', e) = Service.execute calls execute_message world in
    let (h, events, failure) = Runner.execute run_calls (codes "1.log") (codes "{}") host in
    let pending = Invocation.Status.pending in
    (InvocationLaws.has_status pending (Invocation.status_of 20 invocations) ≡ false
      → (e ≡ none)
        × (w'.events ≡ [])
        × (w'.host ≡ host)
        × ((j : Uuid) → Invocation.status_of j w'.invocations ≡ Invocation.status_of j invocations))
    × (InvocationLaws.has_status pending (Invocation.status_of 20 invocations) ≡ true
        → (Invocation.status_of 20 w'.invocations ≡ some (status_executed failure))
          × (e ≡ reported_executed failure)
          × (w'.events ≡ [] ++ events))
execute_lem_example = execute_lem calls execute_message world invocations-IsKeyed (refl, refl)

-- A decoder that knows one message.
abbrev decode_one {ℓ} : {M : Type ℓ} → M → Bytes → Option M
decode_one m payload = if bytes_eq payload (codes "message") then some m else none

names_test :
    (validate_object_name (codes "1/code.tar.gz") ≡ true)
    × (validate_object_name (codes "1/../2/code.tar.gz") ≡ false)
    × (validate_object_name [] ≡ false)
unfolding validate_object_name split contains_byte has_parent bytes_eq
names_test = (refl, refl, refl)

abbrev dead_letters : List (Bytes × Bool)
dead_letters = (codes "noise", true) ∷ (codes "message", true) ∷ []

abbrev no_workers : Uuid → ℕ
no_workers id = 0

execute-Reach_example :
    let w' = (Service.execute calls execute_message world).0 in
    Reach
      (record { invocations = invocations; holding = no_workers })
      (record { invocations = w'.invocations; holding = no_workers })
    × (IsSkipped calls execute_message world w' ⊎ IsRun calls execute_message world w')
execute-Reach_example = execute-Reach calls execute_message world no_workers
