-- ===== src/Analyzer/Orchestrator.antt =====
-- internal/analyzer/orchestrator/analysis_orchestrator.go: the stages of an analysis in their order.
pub mod Verdicts
pub mod Hidden
use oblak.Prelude.{
  if◌then◌else◌, is_some, Result, ok, err, Bool, true, false, not, Option, none, some, List, [],
  ◌∷◌, ◌++◌,
}
use oblak.Text.{Bytes, codes, bytes_eq}
use oblak.Analyzer.Sanitizer.{sanitize_code}
use oblak.Analyzer.Clam.{ScanError}
use oblak.Analyzer.Llm.{SastVerdict, JudgeError}
use oblak.Analyzer.Tools.{Finding, SastError}
use oblak.Analyzer.Unzipper.{Archive, Disk, UnzipError, extract, new_unzipper}

pub data AnalysisVerdict : Type 0 where
  failure malicious safe : AnalysisVerdict

pub data AnalysisError : Type 0 where
  download_failed audit_failed unsafe_file detonation_failed report_failed : AnalysisError
  unzip_failed : UnzipError → AnalysisError
  scan_failed : ScanError → AnalysisError
  judge_failed : JudgeError → AnalysisError

-- What the interfaces that the orchestrator is built from answer for one uploaded file; each is
-- asked at most once, but the judge for every finding.
pub record Services : Type 0 where
  pub download_ok : Bool
  pub archive : Archive
  pub audit_ok : Bool
  pub scan : Result ScanError Bool
  pub semgrep : Result SastError (List Finding)
  pub ask_for_sast : Bytes → Bytes → SastVerdict × Option JudgeError
  pub detonate_ok : Bool
  pub write_report_ok : Bool
  pub ask_for_logs : Result JudgeError Bytes
  pub remove_ok : Bool

-- The files that an analysis leaves on the host.
pub record Workspace : Type 0 where
  pub archive : Bool
  pub extracted : Option Disk
  pub report : Bool

-- AnalyzeFile returns, or log.Fatalf ends the process.
pub data Outcome : Type 0 where
  returned : AnalysisVerdict → Option AnalysisError → Outcome
  exited : Outcome

abbrev is_malicious : SastVerdict → Bool
is_malicious SastVerdict.malicious = true
is_malicious _ = false

-- The loop over the findings: whether one of them ends the analysis as malicious.
unfoldable pub judge_findings : Services → List Finding → Bool
judge_findings sv [] = false
judge_findings sv (f ∷ findings) =
    let rest = judge_findings sv findings in
    let (verdict, e) = sv.ask_for_sast f.message (sanitize_code f.lines) in
    if is_some e then rest else if is_malicious verdict then true else rest

-- From the detonation on; the flag says whether the report is on the disk.
detonate : Services → Bool × Outcome
detonate sv =
    if not sv.detonate_ok
    then (false, returned failure (some detonation_failed))
    else if not sv.write_report_ok
    then (false, returned failure (some report_failed))
    else (
      true,
      elim sv.ask_for_logs [
        | err e ↦ returned failure (some (judge_failed e))
        | ok verdict ↦
            if bytes_eq verdict (codes "MALICIOUS")
            then returned malicious none
            else returned safe none
      ],
    )

analyze_code : Services → Bool × Outcome
unfolding judge_findings detonate
analyze_code sv = elim sv.semgrep [
  | err e ↦ (false, exited)
  | ok findings ↦
      if judge_findings sv findings then (false, returned malicious none) else detonate sv
]

-- From the result of the extraction on.
pub analyze_dir : Services → Option UnzipError → Bool × Outcome
unfolding analyze_code
analyze_dir sv (some e) = (false, returned failure (some (unzip_failed e)))
analyze_dir sv none =
    if not sv.audit_ok then (false, returned malicious (some audit_failed)) else elim sv.scan [
      | err e ↦ (false, returned failure (some (scan_failed e)))
      | ok is_clean ↦
          if not is_clean then (false, returned failure (some unsafe_file)) else analyze_code sv
    ]

abbrev pub purged : Workspace
purged = record { archive = false; extracted = none; report = false }

-- The deferred removals run when the function returns, and not when the process ends.
clean_up : Services → Workspace → Outcome → Workspace
clean_up sv w exited = w
clean_up sv w (returned v e) = if sv.remove_ok then purged else w

-- `id` is the text of the function's identifier.
unfoldable pub analyze_file : Services → Bytes → Workspace → Workspace × Outcome
unfolding analyze_dir clean_up
analyze_file sv id w =
    let target = codes "/tmp/quarantine/" ++ id ++ codes "/extracted" in
    let (disk, e) = extract (new_unzipper none) sv.archive target in
    let (report, out) = analyze_dir sv e in
    let w' : Workspace = record { archive = true; extracted = some disk; report = report } in
    if not sv.download_ok
    then (w, returned failure (some download_failed))
    else (clean_up sv w' out, out)
