-- ===== src/Vm/Runner.antt =====
-- internal/vm/vm/exec.go and internal/vm/vm/prepare.go: one run of a virtual machine, from the drives
-- that it is given to the files that it leaves. The object names are handed to MinIO only, where
-- `fetch_ok` stands for what comes back.
pub mod Answers
pub mod Build
pub mod Cleanup
pub mod Success
use oblak.Prelude.{
  ◌||◌, ◌+◌, if◌then◌else◌, Result, ok, err, ℕ, zero, Bool, true, false, not, ◌&&◌, Option, none,
  some, List, [], ◌∷◌, ◌++◌,
}
use oblak.AgentProto.{ℤ, pos, MessageType, type_done, Message, build, exec}
use oblak.Text.{Bytes}
use oblak.Vm.Connect.{Attempt, connected, refused, connect, Connected}
use oblak.Vm.Drive.{
  Host, DriveMount, Calls, root_drive, minio_drive, minio_upload_drive, ephemeral_drive,
  archive_drive, clean_up,
}
use oblak.Vm.Stream.{StreamError, stream}

pub data RunError : Type 0 where
  code_drive_failed deps_drive_failed tmp_drive_failed : RunError
  start_failed connect_failed send_failed save_failed : RunError
  log_failed : StreamError → RunError
  user_error : RunError

-- What a run does outside the host's files, in order: `cleaned` is the removal of the machine's drives,
-- and `cancelled` the end of the context of a machine that Stop was not called for, which its watcher
-- then stops, not before anything that follows the run.
pub data Event : Type 0 where
  started : Event
  sent : Message → Event
  logged : Bytes → List Message → Event
  stopped : Event
  cancelled : Event
  saved : Bytes → Event
  cleaned : Event

-- What the calls of a run meet: those of its drives, the start of the machine, whether a start that
-- fails gets as far as its log file, the handshake, the
-- agent's messages until none can be received, the upload of the log and of the installed packages.
pub record RunCalls : Type 0 where
  pub code : Calls
  pub deps : Calls
  pub tmp : Calls
  pub start_ok : Bool
  pub vm_log_ok : Bool
  pub attempts : ℕ → Attempt
  pub send_ok : Bool
  pub messages : List Message
  pub put_ok : Bool
  pub save_ok : Bool

abbrev pub Run : Type 0
Run = Host × List Event × Option RunError

-- The callbacks of the drives, in order: pendingCleanups and CleanUpDrives.
unfoldable pub clean_up_drives : List DriveMount → Host → Host
unfolding clean_up
clean_up_drives [] h = h
clean_up_drives (d ∷ ds) h = clean_up_drives ds (clean_up d h)

-- A deferred return with an error before the machine has started.
abbrev aborted : List DriveMount → RunError → Host → Run
aborted pending e h = (clean_up_drives pending h, [], some e)

-- What follows a call that makes a drive, where `pending` are the drives that were made before.
abbrev pub on_drive :
    Host × Option DriveMount → RunError → List DriveMount → (DriveMount → Host → Run) → Run
on_drive (h, none) e pending next = aborted pending e h
on_drive (h, some d) e pending next = next d h

-- Connect, Send and Stream on a started machine, in the order of their errors: the events up to the
-- final message, or the error.
abbrev pub replies :
    Message
    → Bytes
    → Connected
    → Bool
    → List Message
    → Result StreamError Message
    → List Event × Result RunError Message
replies request log_name (refused _ _) send_ok lines final = ([], err connect_failed)
replies request log_name (connected _) false lines final = ([], err send_failed)
replies request log_name (connected _) true lines (err e) = (sent request ∷ [], err (log_failed e))
replies request log_name (connected _) true lines (ok m) =
    (sent request ∷ logged log_name lines ∷ [], ok m)

unfoldable pub converse : RunCalls → Message → Bytes → List Event × Result RunError Message
converse c request log_name =
    let (lines, final) = stream c.put_ok c.messages in
    replies request log_name (connect c.attempts) c.send_ok lines final

-- From the start on. With an error the deferred calls remove the drives, then cancel the context;
-- `finish` is what follows a final message, where Stop comes first.
abbrev pub concluded :
    (Message → List Event × Option RunError) → List Event × Result RunError Message → Host → Run
concluded finish (events, err e) h = (h, started ∷ events ++ cleaned ∷ cancelled ∷ [], some e)
concluded finish (events, ok m) h =
    let (last, e) = finish m in (h, started ∷ events ++ stopped ∷ last ++ cleaned ∷ [], e)

abbrev pub start_and_run :
    Bool
    → (Message → List Event × Option RunError)
    → List Event × Result RunError Message
    → List DriveMount
    → Host
    → Run
start_and_run false finish replied drives h = aborted drives start_failed h
start_and_run true finish replied drives h = concluded finish replied (clean_up_drives drives h)

-- StartMachine creates a log file for the machine, which nothing removes.
abbrev pub with_vm_log : RunCalls → Host → Host
with_vm_log c h = record h {
  vm_logs = if c.start_ok || c.vm_log_ok then h.vm_logs + 1 else h.vm_logs;
}

unfoldable pub run_machine :
    RunCalls
    → Message
    → Bytes
    → (Message → List Event × Option RunError)
    → List DriveMount
    → Host
    → Run
run_machine c request log_name finish drives h =
    start_and_run c.start_ok finish (converse c request log_name) drives (with_vm_log c h)

-- Execute: whatever the final message is, the run has no error.
unfoldable pub execute : RunCalls → Bytes → Bytes → Host → Run
execute c log_name payload h0 = on_drive (archive_drive c.code h0) code_drive_failed [] λ code h1.
    on_drive (minio_drive c.deps h1) deps_drive_failed (code ∷ []) λ deps h2.
      on_drive (ephemeral_drive c.tmp h2) tmp_drive_failed (code ∷ deps ∷ []) λ tmp h3.
        run_machine c (exec payload) log_name (λ m. ([], none))
          (root_drive ∷ code ∷ deps ∷ tmp ∷ []) h3

abbrev pub zero_code : Option ℤ → Bool
zero_code (some (pos zero)) = true
zero_code _ = false

abbrev pub is_done : MessageType → Bool
is_done type_done = true
is_done _ = false

-- isSuccessful
abbrev pub is_successful : Message → Bool
is_successful m = is_done m.type && zero_code m.exit_code

-- The end of PrepareEnvironment: the drive of the packages is saved where the build succeeded.
abbrev pub finish_build : RunCalls → Bytes → Message → List Event × Option RunError
finish_build c drive_name m =
    if not (is_successful m)
    then ([], some user_error)
    else if c.save_ok
    then (saved drive_name ∷ [], none)
    else ([], some save_failed)

-- PrepareEnvironment
unfoldable pub prepare_environment : RunCalls → Bytes → Bytes → Host → Run
prepare_environment c drive_name log_name h0 =
    on_drive (archive_drive c.code h0) code_drive_failed [] λ code h1.
      on_drive (minio_upload_drive c.deps h1) deps_drive_failed (code ∷ []) λ deps h2.
        run_machine c build log_name (finish_build c drive_name) (root_drive ∷ code ∷ deps ∷ []) h2
