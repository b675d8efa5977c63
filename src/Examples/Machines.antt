-- ===== src/Examples/Machines.antt =====
-- The runs of virtual machines at concrete inputs.
use oblak.Prelude.{◌==◌, ok, ℕ, zero, suc, ◌≡◌, refl, ◌↔◌, true, none, some, List, [], ◌∷◌, arith}
use oblak.Text.{codes, has_prefix}
use oblak.AgentProto.{pos, Message, build, output, done}
use oblak.Vm.Connect.{Attempt, dial_failed, write_failed, answered, connected, connect}
use oblak.Vm.Stream.{stream}
use oblak.Vm.Drive.{Host, Calls, minio_upload_drive, ephemeral_drive, archive_drive}
use oblak.Vm.Drive.Leaks.{IsFresh, Owns, drives-Owns}
use oblak.Vm.Runner.{
  user_error, started, sent, logged, stopped, saved, cleaned, RunCalls, converse, run_machine,
  execute, prepare_environment,
}
use oblak.Vm.Runner.Answers.{IsAnswered, lines_of, is_saved}
use oblak.Vm.Runner.Build.{IsZeroExit}
use oblak.Vm.Runner.Success.{IsBooted, prepare_environment_lem}
use oblak.Vm.Runner.Cleanup.{AddsLog, execute-restores}

abbrev pub all_ok : Calls
all_ok = record {
  create_ok = true;
  close_ok = true;
  fetch_ok = true;
  extract_dir_ok = true;
  untar_ok = true;
  widen_ok = true;
  image_ok = true;
  image_close_ok = true;
  pack_ok = true;
  truncate_ok = true;
  format_ok = true;
  chmod_ok = true;
}

abbrev pub host : Host
host = record { files = 2 ∷ 1 ∷ []; next = 3; stuck = λ p. p == 1; vm_logs = 0 }

pub host-IsFresh : IsFresh host
host-IsFresh = ((omega arith, (omega arith, tt)), λ p le. ground arith)

-- The agent answers the third attempt.
abbrev slow_agent : ℕ → Attempt
slow_agent zero = dial_failed
slow_agent (suc zero) = write_failed true
slow_agent (suc (suc n)) = answered (codes "OK 1073741824") true

abbrev printed : Message
printed = output (codes "stdout") (codes "hello")

abbrev messages : List Message
messages = printed ∷ done (pos 0) ∷ printed ∷ []

abbrev pub run_calls : RunCalls
run_calls = record {
  code = all_ok;
  deps = all_ok;
  tmp = all_ok;
  start_ok = true;
  vm_log_ok = true;
  attempts = slow_agent;
  send_ok = true;
  messages = messages;
  put_ok = true;
  save_ok = true;
}

slow_agent_test : connect slow_agent ≡ connected 2
unfolding connect has_prefix
slow_agent_test = refl

messages_test : (stream true messages).1 ≡ ok (done (pos 0))
unfolding stream
messages_test = refl

drives-Owns_example :
    Owns host (archive_drive all_ok host)
    × Owns host (minio_upload_drive all_ok host)
    × Owns host (ephemeral_drive all_ok host)
drives-Owns_example = drives-Owns all_ok host

execute-restores_example :
    let g = (execute run_calls (codes "1.log") (codes "{}") host).0 in
    (g.files ≡ 2 ∷ 1 ∷ []) × AddsLog host g
execute-restores_example =
    execute-restores run_calls (codes "1.log") (codes "{}") host host-IsFresh refl

built_test : (prepare_environment run_calls (codes "d.ext4") (codes "1.log") host).2 ≡ none
unfolding prepare_environment run_machine converse connect stream archive_drive minio_upload_drive
    has_prefix
built_test = refl

prepare_environment_lem_example :
    let (h', events, e) = prepare_environment run_calls (codes "d.ext4") (codes "1.log") host in
    ((e ≡ none) ↔ (
      IsBooted run_calls host
      × ((m : Message) × IsAnswered run_calls m × IsZeroExit m)
      × (true ≡ true)))
    × ((e ≡ some user_error)
        ↔ (IsBooted run_calls host × ((m : Message) × IsAnswered run_calls m × (¬ IsZeroExit m))))
    × (is_saved events ≡ true → e ≡ none)
    × (e ≡ none
        → events
          ≡ started
            ∷ sent build
            ∷ logged (codes "1.log") (lines_of run_calls)
            ∷ stopped
            ∷ saved (codes "d.ext4")
            ∷ cleaned
            ∷ [])
prepare_environment_lem_example =
    prepare_environment_lem run_calls (codes "d.ext4") (codes "1.log") host
