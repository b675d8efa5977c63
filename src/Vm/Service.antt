-- ===== src/Vm/Service.antt =====
-- internal/vm/service: what a build message and an execute message do to the tables of functions and
-- invocations, around one run of a virtual machine.
pub mod Execution
pub mod Outcomes
pub mod Steps
pub mod Workers
use oblak.Prelude.{
  if◌then◌else◌, Result, ok, err, ℕ, Bool, true, false, Option, none, some, List, ◌++◌,
}
use oblak.Text.{Bytes}
use oblak.Sql.{DbError, Uuid}
use oblak.Function
use oblak.Function.{
  Status, Function, Functions, update_function_status, update_function_status_if,
  update_function_status_and_drive_path,
}
use oblak.Invocation
use oblak.Invocation.{
  Invocation, Invocations, update_invocation_status, update_invocation_status_if,
  update_invocation_status_and_log_path_and_end_time,
}
use oblak.Vm.Drive.{Host}
use oblak.Vm.Runner
use oblak.Vm.Runner.{RunError, user_error, Event, RunCalls, Run, prepare_environment}

pub record BuildMessage : Type 0 where
  pub function_id : Uuid
  pub code_object_name : Bytes

pub record ExecuteMessage : Type 0 where
  pub invocation_id : Uuid
  pub code_object_name : Bytes
  pub dependencies_object_name : Bytes
  pub payload : Bytes

pub data ServiceError : Type 0 where
  store_failed : DbError → ServiceError
  run_failed : RunError → ServiceError

pub record World : Type 0 where
  pub functions : Functions
  pub invocations : Invocations
  pub host : Host
  pub events : List Event

-- What one call of a service meets: whether the database executes the claim and the statement behind
-- the run, the calls of the run, the new names of its objects and the time of its end.
pub record ServiceCalls : Type 0 where
  pub claim_up : Bool
  pub settle_up : Bool
  pub run : RunCalls
  pub log_name : Bytes
  pub drive_name : Bytes
  pub end_time : ℕ

abbrev pub ran : Run → World → World
ran (h, events, e) w = record w { host = h; events = w.events ++ events }

-- A failed statement is only logged.
abbrev set_function : Bool → Uuid → Function.Status → World → World
set_function up id s w = record w { functions = (update_function_status up id s w.functions).0 }

abbrev set_invocation : Bool → Uuid → Invocation.Status → World → World
set_invocation up id s w = record w {
  invocations = (update_invocation_status up id s w.invocations).0;
}

-- errors.As with a UserError
abbrev pub is_user_error : RunError → Bool
is_user_error user_error = true
is_user_error _ = false

-- Prepare, behind its run.
abbrev pub settle_prepare :
    Bool → Bytes → Uuid → Option RunError → World → World × Option ServiceError
settle_prepare up drive_name id none w =
    let (t, e) =
      update_function_status_and_drive_path up id Function.Status.ready drive_name w.functions in
    (record w { functions = t }, elim e [ none ↦ none | some x ↦ some (store_failed x) ])
settle_prepare up drive_name id (some e) w =
    if is_user_error e
    then (set_function up id Function.Status.failed w, none)
    else (set_function up id Function.Status.verified w, some (run_failed e))

abbrev pub prepare_with :
    ServiceCalls → Uuid → Result DbError Bool → World → World × Option ServiceError
prepare_with c id (err e) w = (w, some (store_failed e))
prepare_with c id (ok false) w = (w, none)
prepare_with c id (ok true) w =
    let r = prepare_environment c.run c.drive_name c.log_name w.host in
    settle_prepare c.settle_up c.drive_name id r.2 (ran r w)

-- Prepare
unfoldable pub prepare : ServiceCalls → BuildMessage → World → World × Option ServiceError
prepare c m w =
    let (t, claimed) =
      update_function_status_if c.claim_up m.function_id Function.Status.verified
        Function.Status.preparing_environment w.functions in
    prepare_with c m.function_id claimed (record w { functions = t })

-- Execute, behind its run: an error of the statement is only logged.
abbrev pub settle_execute :
    Bool → Bytes → ℕ → Uuid → Option RunError → World → World × Option ServiceError
settle_execute up log_name end_time id none w =
    let (t, _) =
      update_invocation_status_and_log_path_and_end_time up id Invocation.Status.done log_name
        end_time w.invocations in
    (record w { invocations = t }, none)
settle_execute up log_name end_time id (some e) w =
    (set_invocation up id Invocation.Status.pending w, some (run_failed e))

abbrev pub execute_with :
    ServiceCalls → ExecuteMessage → Result DbError Bool → World → World × Option ServiceError
execute_with c m (err e) w = (w, some (store_failed e))
execute_with c m (ok false) w = (w, none)
execute_with c m (ok true) w =
    let r = Runner.execute c.run c.log_name m.payload w.host in
    settle_execute c.settle_up c.log_name c.end_time m.invocation_id r.2 (ran r w)

-- Execute
unfoldable pub execute : ServiceCalls → ExecuteMessage → World → World × Option ServiceError
execute c m w =
    let (t, claimed) =
      update_invocation_status_if c.claim_up m.invocation_id Invocation.Status.pending
        Invocation.Status.executing w.invocations in
    execute_with c m claimed (record w { invocations = t })
