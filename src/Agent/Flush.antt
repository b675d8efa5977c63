-- ===== src/Agent/Flush.antt =====
-- internal/agent: the drives are consistent when the host reads that a job is done.
use mathlib.Core.List.{map}
use oblak.Prelude.{
  if◌then◌else◌, if_both, All, All-append, ◌≡◌, refl, sym, ap, ◌∙◌, ◌⊎◌, inl, inr, Bool, true,
  false, Option, some, List, [], ◌∷◌, ◌++◌, append_assoc,
}
use oblak.Text.{Bytes, codes}
use oblak.AgentProto.{ℤ, pos, MessageType, type_build, type_exec, Message}
use oblak.Agent.{
  Action, kill, sync, Requirements, present, missing, unreadable, Exit, exited, exit_error,
  wait_error, JobError, mount_failed, Machine, emit, emit_line, attempt, build_mounts, exec_mounts,
  build_drives, exec_drives, settle, finish, run_command, install, build_job, handle, exec_job,
  run_type, listen_for_commands,
}
use oblak.Agent.Answers.{
  IsQuiet, lines-IsQuiet, attempt-IsQuiet, build_drives-IsQuiet, exec_drives-IsQuiet,
}

-- Either no final message is sent, or the only one is a done message, the last action, in front of
-- which each drive was unmounted and the buffers were flushed.
abbrev pub Settled : List Action → List Action → Type 0
Settled drives actions =
    All IsQuiet actions
    ⊎ ((before : List Action) × (code : ℤ) × (actions ≡ before ++ settle drives code)
        × All IsQuiet before)

Settled-append :
    (drives front rest : List Action)
    → All IsQuiet front
    → Settled drives rest
    → Settled drives (front ++ rest)
Settled-append drives front rest h (inl quiet) = inl (All-append IsQuiet front rest h quiet)
Settled-append drives front rest h (inr (before, code, e, quiet)) = inr (
  front ++ before,
  code,
  ap (λ r. front ++ r) e ∙ sym (append_assoc front before (settle drives code)),
  All-append IsQuiet front before h quiet,
)

settle-Settled : (drives : List Action) (code : ℤ) → Settled drives (settle drives code)
settle-Settled drives code = inr ([], code, refl, tt)

finish-Settled :
    (failure : Bytes) (drives : List Action) (exit : Exit)
    → All IsQuiet drives
    → Settled drives (finish failure drives exit).0
unfolding finish
finish-Settled failure drives exited h =
    Settled-append drives (kill ∷ []) _ (tt, tt) (settle-Settled drives (pos 0))
finish-Settled failure drives (exit_error code) h =
    Settled-append drives (emit (codes "system") failure ∷ kill ∷ []) _ (refl, (tt, tt))
      (settle-Settled drives code)
finish-Settled failure drives wait_error h =
    inl (refl, (tt, All-append IsQuiet drives (sync ∷ []) h (tt, tt)))

run_command-Settled :
    (m : Machine) (failure : Bytes) (drives : List Action)
    → All IsQuiet drives
    → Settled drives (run_command m failure drives).0
unfolding run_command
run_command-Settled m failure drives h =
    if_both (λ (r : List Action × Option JobError). Settled drives r.0) m.started
      (Settled-append drives (map emit_line m.lines) _ (lines-IsQuiet m.lines)
        (finish-Settled failure drives m.exit h))
      (inl tt)

install-Settled : (m : Machine) (r : Requirements) → Settled build_drives (install m r).0
unfolding install
install-Settled m missing =
    Settled-append build_drives (emit (codes "system") _ ∷ []) _ (refl, tt)
      (settle-Settled build_drives (pos 0))
install-Settled m present = run_command-Settled m _ build_drives build_drives-IsQuiet
install-Settled m unreadable = run_command-Settled m _ build_drives build_drives-IsQuiet

handle-Settled : (m : Machine) (is_json : Bool) → Settled exec_drives (handle m is_json).0
unfolding handle
handle-Settled m true = run_command-Settled m _ exec_drives exec_drives-IsQuiet
handle-Settled m false =
    Settled-append exec_drives (emit (codes "system") _ ∷ []) _ (refl, tt)
      (settle-Settled exec_drives (pos 0))

mounted-Settled :
    (ok' : Action → Bool) (greeting : Bytes) (drives mounts : List Action)
    (job : List Action × Option JobError)
    → All IsQuiet mounts
    → Settled drives job.0
    → Settled drives (
        (emit (codes "system") greeting ∷ (attempt ok' mounts).0)
        ++ (if (attempt ok' mounts).1 then job else ([], some mount_failed)).0)
mounted-Settled ok' greeting drives mounts job h s =
    Settled-append drives (emit (codes "system") greeting ∷ (attempt ok' mounts).0) _
      (refl, attempt-IsQuiet ok' mounts h)
      (if_both (λ (r : List Action × Option JobError). Settled drives r.0) (attempt ok' mounts).1 s
        (inl tt))

abbrev pub drives_of : MessageType → List Action
drives_of type_exec = exec_drives
drives_of _ = build_drives

run_type-Settled :
    (is_json : Bytes → Bool) (m : Machine) (t : MessageType) (payload : Bytes)
    → Settled (drives_of t) (run_type is_json m t payload).0
run_type-Settled is_json m type_exec payload =
    unfold exec_job in
    mounted-Settled m.performs _ exec_drives exec_mounts _ (tt, (tt, (tt, (tt, tt))))
      (handle-Settled m (is_json payload))
run_type-Settled is_json m type_build payload =
    unfold build_job in
    mounted-Settled m.performs _ build_drives build_mounts _ (tt, (tt, (tt, (tt, tt))))
      (install-Settled m m.requirements)
run_type-Settled is_json m _ payload = inl tt

-- Whatever the machine does, a job sends at most one final message: a done message, as its last
-- action, in front of which the job unmounted its drives and flushed the buffers.
pub listen_for_commands-Settled :
    (is_json : Bytes → Bool) (m : Machine) (msg : Message)
    → Settled (drives_of msg.type) (listen_for_commands is_json m msg).0
unfolding listen_for_commands
listen_for_commands-Settled is_json m msg = run_type-Settled is_json m msg.type msg.content
