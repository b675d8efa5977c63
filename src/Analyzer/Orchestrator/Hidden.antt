-- ===== src/Analyzer/Orchestrator/Hidden.antt =====
-- What the code of a finding can hide from the analysis.
use oblak.Prelude.{
  if◌then◌else◌, ◌≡◌, refl, sym, ap, ◌∙◌, ok, inl, inr, Result-cases, Bool, true, false, not,
  Option, none, some, List, [], ◌∷◌, ◌++◌, arith,
}
use oblak.Text.{Bytes, codes, Lacks}
use oblak.Analyzer.Tools.{Finding}
use oblak.Analyzer.Sanitizer.Hidden.{sanitize_code-hash}
use oblak.Analyzer.Orchestrator.{
  Services, Workspace, Outcome, returned, failure, malicious, download_failed, audit_failed,
  unsafe_file, judge_findings, analyze_file, analyze_dir, analyze_code, clean_up, detonate,
}
use oblak.Analyzer.Unzipper.{new_unzipper, extract, UnzipError}

-- A finding whose last line ends with a # and a text.
abbrev pub with_tail : Finding → Bytes → Finding
with_tail f b = record f { lines = f.lines ++ b'#' ∷ b }

abbrev pub with_findings : Services → List Finding → Services
with_findings sv findings = record sv { semgrep = ok findings }

module _ (sv : Services) (f : Finding) (b b' : Bytes) (h : Lacks 10 b) (h' : Lacks 10 b') where
  judge_findings-hash :
      (before behind : List Finding)
      → judge_findings sv (before ++ with_tail f b ∷ behind)
        ≡ judge_findings sv (before ++ with_tail f b' ∷ behind)
  unfolding judge_findings
  judge_findings-hash [] behind = rw (sanitize_code-hash f.lines b b' h h')
  judge_findings-hash (x ∷ before) behind = ground (arith, judge_findings-hash before behind)

judge_findings-with_findings :
    (sv : Services) (all findings : List Finding)
    → judge_findings (with_findings sv all) findings ≡ judge_findings sv findings
unfolding judge_findings
judge_findings-with_findings sv all [] = refl
judge_findings-with_findings sv all (x ∷ findings) =
    ground (arith, judge_findings-with_findings sv all findings)

-- The findings enter the analysis by what the judge makes of them.
module _ (sv : Services) (fs fs' : List Finding)
    (same : judge_findings sv fs ≡ judge_findings sv fs') where
  analyze_code-same : analyze_code (with_findings sv fs) ≡ analyze_code (with_findings sv fs')
  unfolding analyze_code detonate
  analyze_code-same =
      ap (λ j. if j then (false, returned malicious none) else detonate sv)
        (judge_findings-with_findings sv fs fs
          ∙ same
          ∙ sym (judge_findings-with_findings sv fs' fs'))

  analyze_dir-same :
      (e : Option UnzipError)
      → analyze_dir (with_findings sv fs) e ≡ analyze_dir (with_findings sv fs') e
  unfolding analyze_dir
  analyze_dir-same (some e) = refl
  analyze_dir-same none = elim (Result-cases sv.scan) [
    | inl (reason, e) ↦ rw e refl
    | inr (clean, e) ↦ rw e (
        ap
          (λ r.
            if not sv.audit_ok
            then (false, returned malicious (some audit_failed))
            else if not clean
            then (false, returned failure (some unsafe_file))
            else r)
          analyze_code-same)
  ]

  analyze_file-same :
      (id : Bytes) (w : Workspace)
      → analyze_file (with_findings sv fs) id w ≡ analyze_file (with_findings sv fs') id w
  unfolding analyze_file clean_up
  analyze_file-same id w =
      let (disk, e) =
        extract (new_unzipper none) sv.archive
          (codes "/tmp/quarantine/" ++ id ++ codes "/extracted") in
      ap
        (λ (r : Bool × Outcome).
          let w' : Workspace = record { archive = true; extracted = some disk; report = r.0 } in
          if not sv.download_ok
          then (w, returned failure (some download_failed))
          else (clean_up sv w' r.1, r.1))
        (analyze_dir-same e)

-- The analysis of a file does not depend on what stands behind a # on the last line of a finding: the
-- outcome and the files on the host are the same for any two texts with no line break there.
pub analyze_file-hash :
    (sv : Services) (f : Finding) (before behind : List Finding) (b b' : Bytes) (id : Bytes)
    (w : Workspace)
    → Lacks 10 b
    → Lacks 10 b'
    → analyze_file (with_findings sv (before ++ with_tail f b ∷ behind)) id w
      ≡ analyze_file (with_findings sv (before ++ with_tail f b' ∷ behind)) id w
analyze_file-hash sv f before behind b b' id w h h' =
    analyze_file-same sv _ _ (judge_findings-hash sv f b b' h h' before behind) id w
