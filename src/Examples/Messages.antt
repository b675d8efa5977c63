-- ===== src/Examples/Messages.antt =====
-- The analysis and the messages of the analyzer at concrete inputs.
use mathlib.Core.List.{Memᴰ}
use mathlib.Core.Path.{subst}
use oblak.Prelude.{
  ◌==◌, if◌then◌else◌, Result, ok, ◌≡◌, refl, ◌↔◌, inr, Bool, true, none, some, List, [], ◌∷◌, sym,
  ◌⊎◌, Option,
}
use oblak.Text.{Bytes, codes, bytes_eq, has_prefix, split, join}
use oblak.FilePath.{is_abs, push, clean, join_path, dir}
use oblak.Function.{Status, status_of, update_function_status}
use oblak.Function.Laws.{given}
use oblak.Analyzer.Clam.{ResStatus, res_ok, res_found, ScanError, scan_local_path}
use oblak.Analyzer.Llm
use oblak.Analyzer.Llm.{SastVerdict}
use oblak.Analyzer.Tools.{Finding}
use oblak.Analyzer.Unzipper.{new_unzipper, is_inside, extract_entry, extract}
use oblak.Analyzer.Orchestrator.{
  unsafe_file, Services, Workspace, returned, purged, analyze_file, AnalysisVerdict, AnalysisError,
}
use oblak.Analyzer.Orchestrator.Verdicts.{target, Passes, analyze_file_safe_iff}
use oblak.Analyzer.Listener.{
  finished, analysis_failed, FunctionMessage, World, Delivery, process_message, consume,
}
use oblak.Analyzer.Listener.Gate.{IsHeld, verdict_of, build_of, Cleared, consume-Cleared}
use oblak.Analyzer.Listener.Statuses.{settled, process_message_status, infected_is_verified}
use oblak.Examples.Tables.{functions}
use oblak.Examples.Archives.{honest}

abbrev finding : Finding
finding = record {
  check_id = codes "eval";
  message = codes "eval is used";
  lines = codes "eval(x)";
}

abbrev pub services : Result ScanError Bool → Services
services scan = record {
  download_ok = true;
  archive = honest;
  audit_ok = true;
  scan = scan;
  semgrep = ok (finding ∷ []);
  ask_for_sast = λ message lines. (Llm.SastVerdict.safe, none);
  detonate_ok = true;
  write_report_ok = true;
  ask_for_logs = ok (codes "SAFE");
  remove_ok = true;
}

abbrev pub clean_services : Services
clean_services = services (ok true)

abbrev before : Workspace
before = purged

unpacked_test : (extract (new_unzipper none) honest (target (codes "8"))).1 ≡ none
unfolding extract extract_entry clean join_path push bytes_eq split join is_abs has_prefix is_inside
    dir
unpacked_test = refl

passes : Passes clean_services (codes "8") (finding ∷ []) (codes "SAFE")
passes = record {
  downloaded = refl;
  unpacked = unpacked_test;
  audited = refl;
  scanned = refl;
  analyzed = refl;
  dismissed = (inr (λ h. cc), tt);
  detonated = refl;
  reported = refl;
  judged = refl;
  harmless = λ h. cc;
}

analyze_file_safe_iff_example :
    ((analyze_file clean_services (codes "8") before).1 ≡ returned AnalysisVerdict.safe none) ↔ (
      (findings : List Finding) × (verdict : Bytes) × Passes clean_services
        (codes "8")
        findings
        verdict)
analyze_file_safe_iff_example = analyze_file_safe_iff clean_services (codes "8") before

safe_test : (analyze_file clean_services (codes "8") before).1 ≡ returned AnalysisVerdict.safe none
safe_test =
    (analyze_file_safe_iff clean_services (codes "8") before).1 (finding ∷ [], codes "SAFE", passes)

abbrev no_error : Option AnalysisError
no_error = none

abbrev message : FunctionMessage
message = record { function_id = 8; bucket = codes "quarantine"; path = codes "1/code.tar.gz" }

abbrev delivery : Result ScanError Bool → Delivery
delivery scan = record {
  payload = some message;
  services = services scan;
  id_text = codes "8";
  land_up = true;
  status_up = true;
  copy_ok = true;
  remove_ok = true;
  publish_ok = true;
}

abbrev world : World
world = record {
  functions = functions;
  quarantine = codes "1/code.tar.gz" ∷ [];
  promoted = [];
  builds = [];
  workspace = before;
}

process_message_status_example :
    status_of 8 (process_message (delivery (ok true)) world).0.functions ≡ (
      if 8 == 8
      then given (settled (verdict_of (delivery (ok true)) message world)) (status_of 8 functions)
      else status_of 8 functions)
process_message_status_example =
    process_message_status (delivery (ok true)) message world 8 refl refl refl

abbrev infected : List ResStatus
infected = res_ok ∷ res_found ∷ []

infected_is_verified_example :
    let d = delivery (scan_local_path (ok infected)) in
    (status_of 8 (process_message d world).0.functions
      ≡ given Status.verified (status_of 8 functions))
    × IsHeld world (process_message d world).0
    × ((process_message d world).1 ≡ finished (some (analysis_failed unsafe_file)))
infected_is_verified_example =
    infected_is_verified (delivery (scan_local_path (ok infected))) message world infected refl refl
      refl refl unpacked_test refl refl refl refl

builds_test : (consume (delivery (ok true) ∷ []) world).0.builds ≡ build_of message ∷ []
unfolding consume process_message analyze_file extract extract_entry clean join_path push bytes_eq
    split join is_abs has_prefix is_inside dir update_function_status
builds_test = refl

consume-Cleared_example :
    Memᴰ (build_of message) [] ⊎ Cleared (delivery (ok true) ∷ []) 8 (codes "1/code.tar.gz")
consume-Cleared_example =
    consume-Cleared (delivery (ok true) ∷ []) world (build_of message)
      (subst (Memᴰ (build_of message)) (sym builds_test) (Memᴰ.head refl))
