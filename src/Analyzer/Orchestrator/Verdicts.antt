-- ===== src/Analyzer/Orchestrator/Verdicts.antt =====
-- The verdicts of an analysis, against the stages that the file has to pass.
use oblak.Prelude.{
  is_some, All, ok, ◌≡◌, refl, ◌≢◌, ◌↔◌, ◌⊎◌, true, false, none, List, [], ◌∷◌, ◌++◌, arith,
  Result-cases, inl, inr, Option, some,
}
use oblak.Text.{Bytes, codes, bytes_eq_iff}
use oblak.Analyzer.Sanitizer.{sanitize_code}
use oblak.Analyzer.Orchestrator.{
  Services, is_malicious, judge_findings, safe, returned, detonate, analyze_code, AnalysisVerdict,
  failure, AnalysisError, Workspace, exited, analyze_dir, purged, clean_up, analyze_file,
}
use oblak.Analyzer.Unzipper.{new_unzipper, extract, UnzipError}
use oblak.Analyzer.Tools.{Finding}
use oblak.Analyzer.Llm.{SastVerdict}

-- No finding is judged malicious.
abbrev pub AllDismissed : Services → List Finding → Type 0
AllDismissed sv findings =
    All
      (λ (f : Finding).
        let (verdict, e) = sv.ask_for_sast f.message (sanitize_code f.lines) in
        (is_some e ≡ true) ⊎ (verdict ≢ SastVerdict.malicious))
      findings

abbrev pub target : Bytes → Bytes
target id = codes "/tmp/quarantine/" ++ id ++ codes "/extracted"

-- The file passes every stage of the pipeline.
pub record Passes (sv : Services) (id : Bytes) (findings : List Finding) (verdict : Bytes)
    : Type 0 where
  pub downloaded : sv.download_ok ≡ true
  pub unpacked : (extract (new_unzipper none) sv.archive (target id)).1 ≡ none
  pub audited : sv.audit_ok ≡ true
  pub scanned : sv.scan ≡ ok true
  pub analyzed : sv.semgrep ≡ ok findings
  pub dismissed : AllDismissed sv findings
  pub detonated : sv.detonate_ok ≡ true
  pub reported : sv.write_report_ok ≡ true
  pub judged : sv.ask_for_logs ≡ ok verdict
  pub harmless : verdict ≢ codes "MALICIOUS"

is_malicious_lem : (v : SastVerdict) → (is_malicious v ≡ false) ↔ (v ≢ SastVerdict.malicious)
is_malicious_lem SastVerdict.failure = (λ h e. cc, λ h. refl)
is_malicious_lem SastVerdict.malicious = (λ h. cc, λ h. absurd (h refl))
is_malicious_lem SastVerdict.safe = (λ h e. cc, λ h. refl)

judge_findings_lem :
    (sv : Services) (findings : List Finding)
    → (judge_findings sv findings ≡ false) ↔ AllDismissed sv findings
unfolding judge_findings
judge_findings_lem sv [] = (λ h. tt, λ h. refl)
judge_findings_lem sv (f ∷ findings) =
    let v = sv.ask_for_sast f.message (sanitize_code f.lines) in
    (
      ground (arith, is_malicious_lem v.0, judge_findings_lem sv findings),
      ground (arith, is_malicious_lem v.0, judge_findings_lem sv findings),
    )

module _ (sv : Services) where
  detonate_safe :
      (detonate sv).1 ≡ returned safe none
      → (sv.detonate_ok ≡ true)
        × (sv.write_report_ok ≡ true)
        × ((verdict : Bytes) × (sv.ask_for_logs ≡ ok verdict) × (verdict ≢ codes "MALICIOUS"))
  unfolding detonate
  detonate_safe h = elim (Result-cases sv.ask_for_logs) [
    | inl (e, y) ↦ absurd (ground arith)
    | inr (v, y) ↦
        (ground arith, ground arith, (v, y, ground (arith, bytes_eq_iff v (codes "MALICIOUS"))))
  ]

  analyze_code_safe :
      (analyze_code sv).1 ≡ returned safe none
      → (findings : List Finding) × (sv.semgrep ≡ ok findings)
        × (judge_findings sv findings ≡ false)
        × ((detonate sv).1 ≡ returned safe none)
  unfolding analyze_code
  analyze_code_safe h = elim (Result-cases sv.semgrep) [
    | inl (e, y) ↦ absurd (ground arith)
    | inr (findings, y) ↦ (findings, y, ground arith, ground arith)
  ]

  analyze_dir_safe :
      (e : Option UnzipError)
      → (analyze_dir sv e).1 ≡ returned safe none
      → (e ≡ none)
        × (sv.audit_ok ≡ true)
        × (sv.scan ≡ ok true)
        × ((analyze_code sv).1 ≡ returned safe none)
  unfolding analyze_dir
  analyze_dir_safe (some e) h = absurd (ground arith)
  analyze_dir_safe none h = elim (Result-cases sv.scan) [
    | inl (e, y) ↦ absurd (ground arith)
    | inr (true, y) ↦ (refl, ground arith, y, ground arith)
    | inr (false, y) ↦ absurd (ground arith)
  ]

  analyze_file-Passes :
      (id : Bytes) (w : Workspace)
      → (analyze_file sv id w).1 ≡ returned safe none
      → (findings : List Finding) × (verdict : Bytes) × Passes sv id findings verdict
  unfolding analyze_file
  analyze_file-Passes id w h =
      let downloaded : sv.download_ok ≡ true = ground arith in
      let e = (extract (new_unzipper none) sv.archive (target id)).1 in
      let d = analyze_dir_safe e (ground arith) in
      let (findings, analyzed, dismissed, rest) = analyze_code_safe d.3 in
      let (detonated, reported, judged) = detonate_safe rest in
      (
        findings,
        judged.0,
        record {
          downloaded = downloaded;
          unpacked = d.0;
          audited = d.1;
          scanned = d.2;
          analyzed = analyzed;
          dismissed = (judge_findings_lem sv findings).0 dismissed;
          detonated = detonated;
          reported = reported;
          judged = judged.1;
          harmless = judged.2;
        },
      )

  Passes-analyze_file :
      (id : Bytes) (w : Workspace) (findings : List Finding) (verdict : Bytes)
      → Passes sv id findings verdict
      → (analyze_file sv id w).1 ≡ returned safe none
  unfolding analyze_file analyze_dir analyze_code detonate
  Passes-analyze_file id w findings verdict p = ground (
    arith,
    (judge_findings_lem sv findings).1 p.dismissed,
    bytes_eq_iff verdict (codes "MALICIOUS"),
  )

  -- The verdict is SAFE exactly when the file passes every stage: it is downloaded and unpacked, the
  -- audit and the antivirus find nothing, semgrep runs and no finding is judged malicious, and the
  -- detonation is reported and not judged malicious.
  pub analyze_file_safe_iff :
      (id : Bytes) (w : Workspace)
      → ((analyze_file sv id w).1 ≡ returned safe none)
        ↔ ((findings : List Finding) × (verdict : Bytes) × Passes sv id findings verdict)
  analyze_file_safe_iff id w = (analyze_file-Passes id w, λ p. Passes-analyze_file id w p.0 p.1 p.2)

  -- A verdict that is a failure comes with an error, and a safe one with none.
  pub analyze_file_errors :
      (id : Bytes) (w : Workspace) (v : AnalysisVerdict) (e : Option AnalysisError)
      → (analyze_file sv id w).1 ≡ returned v e
      → (v ≡ failure → is_some e ≡ true) × (v ≡ safe → e ≡ none)
  unfolding analyze_file analyze_dir analyze_code detonate
  analyze_file_errors id w v e h = (λ y. ground arith, λ y. ground arith)

  -- Whenever an analysis of a downloaded file returns, whatever its verdict, the archive, the
  -- extracted files and the report are gone from the host, provided that they can be removed. Where
  -- semgrep fails, the process ends instead and the archive and the extracted files stay.
  pub analyze_file_workspace :
      (id : Bytes) (w : Workspace)
      → sv.download_ok ≡ true
      → sv.remove_ok ≡ true
      → let (w', out) = analyze_file sv id w in
        (out ≢ exited → w' ≡ purged)
        × (out ≡ exited → (w'.archive ≡ true) × (is_some w'.extracted ≡ true))
  unfolding analyze_file clean_up
  analyze_file_workspace id w d r = (λ y. ground arith, λ y. ground arith)
