-- ===== src/Analyzer/Dast/Sandbox.antt =====
-- internal/analyzer/dast/visor.go and helpers.go: one run of a sample in a container that gVisor
-- watches. What Docker and the file system answer is a parameter.
use oblak.Prelude.{
  if◌then◌else◌, if_both, Result, err, ok, ℕ, ◌≡◌, refl, ap, ◌∙◌, Bool, true, false, not, ◌||◌,
  Option, none, some, List, [], ◌∷◌, ◌++◌, arith,
}
use oblak.Text.{Bytes, codes, bytes_eq, has_prefix, has_suffix}
use oblak.Analyzer.Dast.Report.{BehaviorReport, parse_line, empty_report, parse_behavior_report}
use oblak.Analyzer.Dast.Search.{index_str, contains_str, split_lines}
use oblak.Analyzer.Dast.Fields.{extract_timestamp, last_bracket, extract_body}

-- The answers that one run meets. A read that fails has the text of its error; `polls` are the
-- reads of the log directory before the deadline.
pub record Docker : Type 0 where
  pub snapshot : Result Bytes (List Bytes)
  pub created : Option ℕ
  pub started : Bool
  pub polls : List (Result Bytes (List Bytes))
  pub wait_failed : Bool
  pub logs : Option (Option (Bytes × Bytes))
  pub boot_file : Bytes → Result Bytes Bytes

pub data Action : Type 0 where
  create start : Action
  wait fetch_logs remove : ℕ → Action

pub data DetonateError : Type 0 where
  create_failed start_failed run_failed logs_failed copy_failed : DetonateError

pub data BootError : Type 0 where
  read_dir_failed : Bytes → BootError
  timed_out : BootError

pub record ExecutionResult : Type 0 where
  pub stdout : Bytes
  pub stderr : Bytes
  pub behavior : BehaviorReport
  pub raw_strace : Bytes

abbrev is_listed : Bytes → List Bytes → Bool
is_listed name [] = false
is_listed name (n ∷ ns) = bytes_eq n name || is_listed name ns

-- The first new boot log of one read of the directory.
unfoldable pub new_boot_log : List Bytes → List Bytes → Option Bytes
new_boot_log before [] = none
new_boot_log before (name ∷ names) =
    let rest = new_boot_log before names in
    if is_listed name before
    then rest
    else if has_suffix name (codes ".boot.txt")
    then some name
    else rest

-- One round of the loop; `rest` is what the rounds behind it give.
abbrev after_read : Option Bytes → Result BootError Bytes → Result BootError Bytes
after_read (some name) rest = ok (codes "/tmp/runsc-logs/" ++ name)
after_read none rest = rest

unfoldable pub find_new_boot_log :
    List Bytes → List (Result Bytes (List Bytes)) → Result BootError Bytes
unfolding new_boot_log
find_new_boot_log before [] = err timed_out
find_new_boot_log before (err e ∷ polls) = err (read_dir_failed e)
find_new_boot_log before (ok entries ∷ polls) =
    after_read (new_boot_log before entries) (find_new_boot_log before polls)

abbrev boot_error_text : BootError → Bytes
boot_error_text (read_dir_failed e) = e
boot_error_text timed_out = codes "timed out waiting for new boot log in /tmp/runsc-logs"

read_boot_log : Result Bytes Bytes → Bytes
read_boot_log (err e) = codes "(could not read boot log: " ++ (e ++ codes ")")
read_boot_log (ok content) = content

-- The text of the trace, or a note that there is none.
unfoldable pub raw_trace : (Bytes → Result Bytes Bytes) → Result BootError Bytes → Bytes
unfolding read_boot_log
raw_trace boot_file (err e) = codes "(strace unavailable: " ++ (boot_error_text e ++ codes ")")
raw_trace boot_file (ok path) = read_boot_log (boot_file path)

collect : Bytes → Option (Option (Bytes × Bytes)) → Result DetonateError ExecutionResult
collect raw none = err logs_failed
collect raw (some none) = err copy_failed
collect raw (some (some (out, errs))) =
    ok (record {
      stdout = out;
      stderr = errs;
      behavior = parse_behavior_report raw;
      raw_strace = raw;
    })

abbrev or_empty : Result Bytes (List Bytes) → List Bytes
or_empty (err e) = []
or_empty (ok names) = names

-- From ContainerStart to the return; the deferred removal runs at each of its ends.
started_run : Docker → ℕ → List Action × Result DetonateError ExecutionResult
unfolding raw_trace collect find_new_boot_log
started_run a id =
    if not a.started
    then (create ∷ start ∷ remove id ∷ [], err start_failed)
    else if a.wait_failed
    then (create ∷ start ∷ wait id ∷ remove id ∷ [], err run_failed)
    else (
      create ∷ start ∷ wait id ∷ fetch_logs id ∷ remove id ∷ [],
      collect (raw_trace a.boot_file (find_new_boot_log (or_empty a.snapshot) a.polls)) a.logs,
    )

abbrev with_container : Docker → Option ℕ → List Action × Result DetonateError ExecutionResult
with_container a none = (create ∷ [], err create_failed)
with_container a (some id) = started_run a id

unfoldable pub detonate : Docker → List Action × Result DetonateError ExecutionResult
unfolding started_run
detonate a = with_container a a.created

-- What a run leaves of its container: where Docker created one, the last action removes it, and
-- where it created none, nothing else is asked of Docker.
abbrev pub Removed : Option ℕ → List Action → Type 0
Removed none actions = actions ≡ create ∷ []
Removed (some id) actions = (before : List Action) × (actions ≡ before ++ remove id ∷ [])

started_run-Removed : (a : Docker) (id : ℕ) → Removed (some id) (started_run a id).0
unfolding started_run
started_run-Removed a id =
    if_both (λ (r : List Action × Result DetonateError ExecutionResult). Removed (some id) r.0)
      (not a.started) (create ∷ start ∷ [], refl)
      (if_both (λ (r : List Action × Result DetonateError ExecutionResult). Removed (some id) r.0)
        a.wait_failed (create ∷ start ∷ wait id ∷ [], refl)
        (create ∷ start ∷ wait id ∷ fetch_logs id ∷ [], refl))

with_container-Removed : (a : Docker) (o : Option ℕ) → Removed o (with_container a o).0
with_container-Removed a none = refl
with_container-Removed a (some id) = started_run-Removed a id

-- Whatever Docker answers, a container that a run created is removed by its last action.
pub detonate-Removed : (a : Docker) → Removed a.created (detonate a).0
unfolding detonate
detonate-Removed a = with_container-Removed a a.created

unwatched_report : parse_behavior_report (raw_trace (λ _. err []) (err timed_out)) ≡ empty_report
unfolding raw_trace parse_behavior_report parse_line extract_timestamp extract_body last_bracket
    has_prefix index_str contains_str split_lines
unwatched_report = refl

collect-ok :
    (raw : Bytes) {logs : Option (Option (Bytes × Bytes))} (out errs : Bytes)
    → logs ≡ some (some (out, errs))
    → collect raw logs
      ≡ ok (record {
        stdout = out;
        stderr = errs;
        behavior = parse_behavior_report raw;
        raw_strace = raw;
      })
unfolding collect
collect-ok raw out errs h = rw h

started_run-ok :
    (a : Docker) (id : ℕ) {out errs : Bytes} {found : Result BootError Bytes}
    → a.started ≡ true
    → a.wait_failed ≡ false
    → a.logs ≡ some (some (out, errs))
    → find_new_boot_log (or_empty a.snapshot) a.polls ≡ found
    → (started_run a id).1
      ≡ ok (record {
        stdout = out;
        stderr = errs;
        behavior = parse_behavior_report (raw_trace a.boot_file found);
        raw_strace = raw_trace a.boot_file found;
      })
unfolding started_run
started_run-ok a id {out} {errs} {found} s w l f =
    let same = ap (λ b. collect (raw_trace a.boot_file b) a.logs) f in
    let done = collect-ok (raw_trace a.boot_file found) out errs l in ground (arith, same, done)

-- A run that finds no new boot log in time still succeeds where Docker answers, and reports no
-- system call at all.
pub detonate_unwatched :
    (a : Docker) {id : ℕ} {out errs : Bytes}
    → a.created ≡ some id
    → a.started ≡ true
    → a.wait_failed ≡ false
    → a.logs ≡ some (some (out, errs))
    → find_new_boot_log (or_empty a.snapshot) a.polls ≡ err timed_out
    → (r : ExecutionResult) × ((detonate a).1 ≡ ok r) × (r.behavior ≡ empty_report)
unfolding detonate
detonate_unwatched a {id} {out} {errs} c s w l f =
    let raw = raw_trace a.boot_file (err timed_out) in
    (
      record {
        stdout = out;
        stderr = errs;
        behavior = parse_behavior_report raw;
        raw_strace = raw;
      },
      ap (λ o. (with_container a o).1) c ∙ started_run-ok a id s w l f,
      unfold raw_trace in unwatched_report,
    )
