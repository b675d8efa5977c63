-- ===== src/Agent/Answers.antt =====
-- internal/agent and internal/vm/vm: what the host reads of the messages that a job sends.
use mathlib.Core.List.{map}
use oblak.Prelude.{
  if◌then◌else◌, if_both, Bool-cases, All, ◌≡◌, refl, ap, ◌∙◌, inl, inr, Bool, true, false, not,
  ◌&&◌, ◌||◌, Option, none, some, List, [], ◌∷◌, ◌++◌,
}
use oblak.Text.{Bytes, codes}
use oblak.AgentProto.{ℤ, pos, Message, done}
use oblak.Vm.Stream.{is_final, receive_loop}
use oblak.Vm.Runner.{zero_code, is_successful}
use oblak.Agent.{
  Action, send, mount, chown, unmount, kill, sync, Requirements, present, missing, unreadable, Exit,
  exited, exit_error, wait_error, JobError, mount_failed, Machine, emit, emit_line, attempt,
  build_mounts, exec_mounts, build_drives, exec_drives, settle, finish, run_command, install,
  build_job, handle, exec_job,
}

-- The messages on the connection.
unfoldable pub sent : List Action → List Message
sent [] = []
sent (send m ∷ actions) = m ∷ sent actions
sent (_ ∷ actions) = sent actions

-- Whether the host takes a job for successful: the final message that it reads says so.
abbrev says_success : Option Message → Bool
says_success none = false
says_success (some m) = is_successful m

unfoldable pub seen_success : List Action → Bool
unfolding sent receive_loop
seen_success actions = says_success (receive_loop (sent actions)).1

-- No final message is among the actions.
abbrev pub IsQuiet : Action → Type 0
IsQuiet (send m) = is_final m.type ≡ false
IsQuiet _ = Unit

seen_success-append :
    (front rest : List Action)
    → All IsQuiet front
    → seen_success (front ++ rest) ≡ seen_success rest
unfolding seen_success sent receive_loop
seen_success-append [] rest h = refl
seen_success-append (send m ∷ front) rest h = rw h.0 (seen_success-append front rest h.1)
seen_success-append (mount t ∷ front) rest h = seen_success-append front rest h.1
seen_success-append (chown t ∷ front) rest h = seen_success-append front rest h.1
seen_success-append (unmount t ∷ front) rest h = seen_success-append front rest h.1
seen_success-append (kill ∷ front) rest h = seen_success-append front rest h.1
seen_success-append (sync ∷ front) rest h = seen_success-append front rest h.1

pub lines-IsQuiet : (ls : List (Bytes × Bytes)) → All IsQuiet (map emit_line ls)
lines-IsQuiet [] = tt
lines-IsQuiet (l ∷ ls) = (refl, lines-IsQuiet ls)

pub attempt-IsQuiet :
    (ok' : Action → Bool) (actions : List Action)
    → All IsQuiet actions
    → All IsQuiet (attempt ok' actions).0
unfolding attempt
attempt-IsQuiet ok' [] h = tt
attempt-IsQuiet ok' (a ∷ rest) h =
    if_both (λ (r : List Action × Bool). All IsQuiet r.0) (ok' a)
      (h.0, attempt-IsQuiet ok' rest h.1) (h.0, tt)

-- The exit code that the agent answers with.
abbrev pub answered : Exit → Option ℤ
answered exited = some (pos 0)
answered (exit_error code) = some code
answered wait_error = none

abbrev pub is_missing : Requirements → Bool
is_missing missing = true
is_missing _ = false

-- The drives are unmounted by calls that send nothing.
pub build_drives-IsQuiet : All IsQuiet build_drives
build_drives-IsQuiet = (tt, (tt, tt))

pub exec_drives-IsQuiet : All IsQuiet exec_drives
exec_drives-IsQuiet = (tt, (tt, (tt, tt)))

settle_seen :
    (drives : List Action) (code : ℤ)
    → All IsQuiet drives
    → seen_success (settle drives code) ≡ zero_code (some code)
settle_seen drives code h =
    seen_success-append drives (sync ∷ send (done code) ∷ []) h
    ∙ unfold seen_success in unfold sent in unfold receive_loop in refl

finish_seen :
    (failure : Bytes) (drives : List Action) (exit : Exit)
    → All IsQuiet drives
    → seen_success (finish failure drives exit).0 ≡ zero_code (answered exit)
unfolding finish
finish_seen failure drives exited h =
    seen_success-append (kill ∷ []) (settle drives (pos 0)) (tt, tt) ∙ settle_seen drives (pos 0) h
finish_seen failure drives (exit_error code) h =
    seen_success-append (emit (codes "system") failure ∷ kill ∷ []) (settle drives code)
      (refl, (tt, tt))
    ∙ settle_seen drives code h
finish_seen failure drives wait_error h =
    seen_success-append (emit (codes "system") failure ∷ kill ∷ []) (drives ++ sync ∷ [])
      (refl, (tt, tt))
    ∙ seen_success-append drives (sync ∷ []) h
    ∙ unfold seen_success in unfold sent in unfold receive_loop in refl

run_command_seen :
    (m : Machine) (failure : Bytes) (drives : List Action)
    → All IsQuiet drives
    → seen_success (run_command m failure drives).0 ≡ (m.started && zero_code (answered m.exit))
unfolding run_command
run_command_seen m failure drives h = elim (Bool-cases m.started) [
  | inl y ↦ rw y (
      seen_success-append (map emit_line m.lines) _ (lines-IsQuiet m.lines)
      ∙ finish_seen failure drives m.exit h)
  | inr n ↦ rw n (unfold seen_success in unfold sent in unfold receive_loop in refl)
]

install_seen :
    (m : Machine) (r : Requirements)
    → seen_success (install m r).0 ≡ (is_missing r || (m.started && zero_code (answered m.exit)))
unfolding install
install_seen m missing =
    seen_success-append (emit (codes "system") _ ∷ []) (settle build_drives (pos 0)) (refl, tt)
    ∙ settle_seen build_drives (pos 0) build_drives-IsQuiet
install_seen m present = run_command_seen m _ build_drives build_drives-IsQuiet
install_seen m unreadable = run_command_seen m _ build_drives build_drives-IsQuiet

handle_seen :
    (m : Machine) (is_json : Bool)
    → seen_success (handle m is_json).0
      ≡ (not is_json || (m.started && zero_code (answered m.exit)))
unfolding handle
handle_seen m true = run_command_seen m _ exec_drives exec_drives-IsQuiet
handle_seen m false =
    seen_success-append (emit (codes "system") _ ∷ []) (settle exec_drives (pos 0)) (refl, tt)
    ∙ settle_seen exec_drives (pos 0) exec_drives-IsQuiet

-- The mounts in front of a job: it is seen to succeed where they do and it does.
mounted_seen :
    (ok' : Action → Bool) (greeting : Bytes) (mounts : List Action)
    (job : List Action × Option JobError)
    → All IsQuiet mounts
    → seen_success (
        (emit (codes "system") greeting ∷ (attempt ok' mounts).0)
        ++ (if (attempt ok' mounts).1 then job else ([], some mount_failed)).0)
      ≡ ((attempt ok' mounts).1 && seen_success job.0)
mounted_seen ok' greeting mounts job h =
    seen_success-append (emit (codes "system") greeting ∷ (attempt ok' mounts).0) _
      (refl, attempt-IsQuiet ok' mounts h)
    ∙ (elim (Bool-cases (attempt ok' mounts).1) [
      | inl y ↦ rw y
      | inr n ↦ rw n (unfold seen_success in unfold sent in unfold receive_loop in refl)
    ])

-- The host sees a build succeed exactly when the drives are mounted and either there is no
-- requirements file or pip starts and ends with the exit code 0.
pub build_job_seen :
    (m : Machine)
    → seen_success (build_job m).0 ≡ (
        (attempt m.performs build_mounts).1
        && (is_missing m.requirements || (m.started && zero_code (answered m.exit))))
unfolding build_job
build_job_seen m =
    mounted_seen m.performs (codes "Preparing environment...") build_mounts
      (install m m.requirements) (tt, (tt, (tt, (tt, tt))))
    ∙ ap (λ b. (attempt m.performs build_mounts).1 && b) (install_seen m m.requirements)

-- The host sees an execution succeed exactly when the drives are mounted and either the payload is
-- not JSON or the handler starts and ends with the exit code 0.
pub exec_job_seen :
    (is_json : Bytes → Bool) (m : Machine) (payload : Bytes)
    → seen_success (exec_job is_json m payload).0 ≡ (
        (attempt m.performs exec_mounts).1
        && (not (is_json payload) || (m.started && zero_code (answered m.exit))))
unfolding exec_job
exec_job_seen is_json m payload =
    mounted_seen m.performs (codes "Execution started") exec_mounts (handle m (is_json payload))
      (tt, (tt, (tt, (tt, tt))))
    ∙ ap (λ b. (attempt m.performs exec_mounts).1 && b) (handle_seen m (is_json payload))
