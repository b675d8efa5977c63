-- ===== src/Vm/Machine.antt =====
-- StartMachine and Stop of internal/vm/vm/vm.go: the life of one machine, which its caller stops or,
-- when the context of the caller ends, a watcher does. What Firecracker and the host answer is a
-- parameter.
pub mod Release
use oblak.Prelude.{
  if◌then◌else◌, Result, err, ok, ℕ, ◌+◌, ◌≡◌, Bool, true, false, not, Option, none, some,
}

-- What the handle of a machine holds: whether the machine runs, the log file is open, the directory of
-- the jail is there, the context of the machine is cancelled and `stopOnce` was used, and how often
-- StopVMM was called.
pub record MicroVm : Type 0 where
  pub running : Bool
  pub log_open : Bool
  pub jailer_dir : Bool
  pub cancelled : Bool
  pub stopped_once : Bool
  pub stop_calls : ℕ

pub data StartError : Type 0 where
  stale_dir_kept log_failed new_failed start_failed : StartError

-- Whether each call of StartMachine succeeds.
pub record StartCalls : Type 0 where
  pub stale_removed : Bool
  pub log_created : Bool
  pub machine_made : Bool
  pub machine_started : Bool

abbrev pub fresh_vm : MicroVm
fresh_vm = record {
  running = true;
  log_open = true;
  jailer_dir = true;
  cancelled = false;
  stopped_once = false;
  stop_calls = 0;
}

-- The machine, or the error, and whether the log file is open on return.
unfoldable pub start_machine : StartCalls → Result StartError MicroVm × Bool
start_machine c =
    if not c.stale_removed
    then (err stale_dir_kept, false)
    else if not c.log_created
    then (err log_failed, false)
    else if not c.machine_made
    then (err new_failed, false)
    else if not c.machine_started
    then (err start_failed, false)
    else (ok fresh_vm, true)

pub data StopError : Type 0 where
  stop_failed : StopError

-- The function that `stopOnce` runs: StopVMM, whose error is kept, the wait, the cancellation, and the
-- release of the log and of the directory. `stop_ok` is the result of StopVMM; a machine that it does
-- not stop ends with its context.
abbrev tear_down : MicroVm → MicroVm
tear_down vm = record {
  running = false;
  log_open = false;
  jailer_dir = false;
  cancelled = true;
  stopped_once = true;
  stop_calls = vm.stop_calls + 1;
}

unfoldable pub stop : Bool → MicroVm → MicroVm × Option StopError
stop stop_ok vm =
    if vm.stopped_once
    then (vm, none)
    else (tear_down vm, if stop_ok then none else some stop_failed)

-- The machine with the context of its caller and the watcher that StartMachine left behind.
pub record World : Type 0 where
  pub vm : MicroVm
  pub ctx_done : Bool
  pub watching : Bool

abbrev pub started : World
started = record { vm = fresh_vm; ctx_done = false; watching = true }

-- What can happen, in any order: the context ends, the machine powers off by itself, the caller calls
-- Stop, and the watcher stops the machine where the context ended or ends where the machine did.
pub data Change : World → World → Type 0 where
  context_ends : (w : World) → Change w (record w { ctx_done = true })
  powers_off : (w : World) → Change w (record w { vm = record w.vm { running = false } })
  caller_stops : (w : World) (stop_ok : Bool) → Change w (record w { vm = (stop stop_ok w.vm).0 })
  watcher_stops :
      (w : World) (stop_ok : Bool)
      → w.watching ≡ true
      → w.ctx_done ≡ true
      → Change w (record w { vm = (stop stop_ok w.vm).0; watching = false })
  watcher_ends :
      (w : World)
      → w.watching ≡ true
      → w.vm.cancelled ≡ true
      → Change w (record w { watching = false })

pub data Leads (s : World) : World → Type 0 where
  unchanged : Leads s s
  and_then : {t u : World} → Leads s t → Change t u → Leads s u
