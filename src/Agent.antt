-- ===== src/Agent.antt =====
-- internal/agent: the program inside the virtual machine, which runs one job for the host.
-- What the kernel and the child process do is a parameter.
pub mod Answers
pub mod Flush
use mathlib.Core.List.{map}
use oblak.Prelude.{if◌then◌else◌, Bool, true, false, Option, none, some, List, [], ◌∷◌, ◌++◌}
use oblak.Text.{Bytes, codes}
use oblak.AgentProto.{ℤ, pos, MessageType, type_build, type_exec, Message, output, done}

pub data Action : Type 0 where
  send : Message → Action
  mount chown unmount : Bytes → Action
  kill sync : Action

-- os.Stat of requirements.txt; `unreadable` is any error but ErrNotExist.
pub data Requirements : Type 0 where
  present missing unreadable : Requirements

-- What cmd.Wait returns: nil, an ExitError with its code, or another error.
pub data Exit : Type 0 where
  exited : Exit
  exit_error : ℤ → Exit
  wait_error : Exit

pub data JobError : Type 0 where
  mount_failed start_failed command_failed : JobError

-- `lines` are the channel and the text of the lines that the two scanners read, as they are sent.
pub record Machine : Type 0 where
  pub performs : Action → Bool
  pub requirements : Requirements
  pub started : Bool
  pub lines : List (Bytes × Bytes)
  pub exit : Exit

abbrev pub emit : Bytes → Bytes → Action
emit channel text = send (output channel text)

abbrev pub emit_line : Bytes × Bytes → Action
emit_line l = emit l.0 (l.1 ++ 10 ∷ [])

-- Calls in their order, up to the first that fails.
unfoldable pub attempt : (Action → Bool) → List Action → List Action × Bool
attempt ok' [] = ([], true)
attempt ok' (a ∷ rest) =
    let (done', all) = attempt ok' rest in if ok' a then (a ∷ done', all) else (a ∷ [], false)

abbrev pub build_mounts : List Action
build_mounts =
    mount (codes "/app") ∷ mount (codes "/deps") ∷ chown (codes "/deps") ∷ mount (codes "/tmp") ∷ []

abbrev pub exec_mounts : List Action
exec_mounts =
    mount (codes "/app") ∷ mount (codes "/deps") ∷ mount (codes "/tmp") ∷ chown (codes "/tmp") ∷ []

abbrev pub build_drives : List Action
build_drives = unmount (codes "/app") ∷ unmount (codes "/deps") ∷ []

abbrev pub exec_drives : List Action
exec_drives = unmount (codes "/app") ∷ unmount (codes "/deps") ∷ unmount (codes "/tmp") ∷ []

-- unmountDrives, Sync and Send(Done(code)).
abbrev pub settle : List Action → ℤ → List Action
settle drives code = drives ++ (sync ∷ send (done code) ∷ [])

-- cmd.Wait, cleanUp and the answer.
unfoldable pub finish : Bytes → List Action → Exit → List Action × Option JobError
finish failure drives exited = (kill ∷ settle drives (pos 0), none)
finish failure drives (exit_error code) =
    (emit (codes "system") failure ∷ kill ∷ settle drives code, some command_failed)
finish failure drives wait_error =
    (emit (codes "system") failure ∷ kill ∷ (drives ++ sync ∷ []), some command_failed)

abbrev in_front {ℓ} : {B : Type ℓ} → List Action → List Action × B → List Action × B
in_front front r = (front ++ r.0, r.1)

-- startWithStream and what follows it.
unfoldable pub run_command : Machine → Bytes → List Action → List Action × Option JobError
unfolding finish
run_command m failure drives =
    if m.started
    then in_front (map emit_line m.lines) (finish failure drives m.exit)
    else ([], some start_failed)

unfoldable pub install : Machine → Requirements → List Action × Option JobError
unfolding run_command
install m missing = (
  emit (codes "system") (codes "No requirements.txt, skipping pip install...")
      ∷ settle build_drives (pos 0),
  none,
)
install m _ = run_command m (codes "Failed to install dependencies") build_drives

-- BuildJob.Run
unfoldable pub build_job : Machine → List Action × Option JobError
unfolding attempt install
build_job m =
    let (mounts, mounted) = attempt m.performs build_mounts in
    in_front (emit (codes "system") (codes "Preparing environment...") ∷ mounts)
      (if mounted then install m m.requirements else ([], some mount_failed))

-- The handler is run where the payload is JSON.
unfoldable pub handle : Machine → Bool → List Action × Option JobError
unfolding run_command
handle m true = run_command m (codes "Execution failed") exec_drives
handle m false = (
  emit (codes "system") (codes "The payload is not valid json") ∷ settle exec_drives (pos 0),
  none,
)

-- ExecJob.Run; `is_json` is json.Valid.
unfoldable pub exec_job : (Bytes → Bool) → Machine → Bytes → List Action × Option JobError
unfolding attempt handle
exec_job is_json m payload =
    let (mounts, mounted) = attempt m.performs exec_mounts in
    in_front (emit (codes "system") (codes "Execution started") ∷ mounts)
      (if mounted then handle m (is_json payload) else ([], some mount_failed))

-- ListenForCommands behind its first Receive: a message of another type runs no job.
abbrev pub run_type : (Bytes → Bool) → Machine → MessageType → Bytes → List Action × Option JobError
run_type is_json m type_exec payload = exec_job is_json m payload
run_type is_json m type_build payload = build_job m
run_type is_json m _ payload = ([], none)

unfoldable pub listen_for_commands :
    (Bytes → Bool) → Machine → Message → List Action × Option JobError
unfolding exec_job build_job
listen_for_commands is_json m msg = run_type is_json m msg.type msg.content
