-- ===== src/Examples/Jobs.antt =====
-- The agent's jobs on concrete machines.
use oblak.Prelude.{◌≡◌, Bool, true, false, [], ◌∷◌}
use oblak.Text.{Bytes, codes, bytes_eq}
use oblak.AgentProto.{pos, build}
use oblak.Agent.{
  present, exit_error, Machine, attempt, build_drives, build_job, exec_job, listen_for_commands,
}
use oblak.Agent.Answers.{seen_success, build_job_seen, exec_job_seen}
use oblak.Agent.Flush.{Settled, listen_for_commands-Settled}

-- pip fails with the code 1 after one line.
abbrev failing : Machine
failing = record {
  performs = λ _. true;
  requirements = present;
  started = true;
  lines = (codes "stdout", codes "collecting") ∷ [];
  exit = exit_error (pos 1);
}

failing_seen : seen_success (build_job failing).0 ≡ false
unfolding attempt
failing_seen = build_job_seen failing

abbrev accepts_objects : Bytes → Bool
accepts_objects payload = bytes_eq payload (codes "{}")

-- A payload that is not JSON runs nothing and is seen as a success.
invalid_payload_seen : seen_success (exec_job accepts_objects failing (codes "{")).0 ≡ true
unfolding attempt bytes_eq
invalid_payload_seen = exec_job_seen accepts_objects failing (codes "{")

listen_for_commands-Settled_example :
    Settled build_drives (listen_for_commands accepts_objects failing build).0
listen_for_commands-Settled_example = listen_for_commands-Settled accepts_objects failing build
