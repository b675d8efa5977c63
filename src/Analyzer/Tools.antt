-- ===== src/Analyzer/Tools.antt =====
-- internal/analyzer/audit/pip_auditor.go and internal/analyzer/sast/semgrep.go: the programs that
-- the analyzer runs. What a run leaves is a parameter.
use oblak.Prelude.{
  if◌then◌else◌, Result, ◌>>◌, or_err, guard, Bool, true, not, ◌||◌, Option, List, [],
}
use oblak.Text.{Bytes, bytes_eq}

-- Audit: whether requirements.txt is missing, and whether pip-audit exits with 0.
unfoldable pub audit : Bool → Bool → Bool
audit missing exit_ok = if missing then true else exit_ok

pub record Finding : Type 0 where
  pub check_id : Bytes
  pub message : Bytes
  pub lines : Bytes

pub data SastError : Type 0 where
  no_abs_path no_token execution_failed bad_json : SastError

-- A run of semgrep: whether its path and its token could be set, whether it exits with 0, and what
-- it prints.
pub record SemgrepRun : Type 0 where
  pub abs_ok : Bool
  pub setenv_ok : Bool
  pub exit_ok : Bool
  pub output : Bytes

-- `parse` is json.Unmarshal into the report.
unfoldable pub run_semgrep :
    (Bytes → Option (List Finding)) → SemgrepRun → Result SastError (List Finding)
unfolding bytes_eq
run_semgrep parse r = do
  guard r.abs_ok no_abs_path
  guard r.setenv_ok no_token
  guard (r.exit_ok || not (bytes_eq r.output [])) execution_failed
  or_err bad_json (parse r.output)
