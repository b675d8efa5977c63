-- ===== src/Examples/Findings.antt =====
-- The code of a finding, and what of it the language model is shown.
use oblak.Prelude.{◌≡◌, refl, [], ◌∷◌, ◌++◌, arith}
use oblak.Text.{Bytes, codes, has_prefix, trim_space, Lacks}
use oblak.Analyzer.Tools.{Finding}
use oblak.Analyzer.Sanitizer.{replace_all, line_length, enclosed, sanitize_code}
use oblak.Analyzer.Dast.Search.{index_str}
use oblak.Analyzer.Orchestrator.{analyze_file, purged}
use oblak.Analyzer.Orchestrator.Hidden.{with_tail, with_findings, analyze_file-hash}
use oblak.Examples.Messages.{clean_services}

-- Comments of three kinds are removed, and blanks at the ends.
sanitize_test :
    sanitize_code
      (codes " x = 1 # one" ++ 10 ∷ (codes "'''two''' y = 7 // 2" ++ 10 ∷ codes "/* three */ z"))
    ≡ codes "x = 1 " ++ 10 ∷ (codes " y = 7 " ++ 10 ∷ codes " z")
unfolding sanitize_code replace_all line_length enclosed has_prefix index_str trim_space
sanitize_test = refl

-- The # stands in a string, and a call behind it.
abbrev finding : Finding
finding = record {
  check_id = codes "eval";
  message = codes "eval is used";
  lines = codes "eval(x if x != '";
}

abbrev hidden : Bytes
hidden = codes "' else y); eval(y)"

hidden-Lacks : Lacks 10 hidden
hidden-Lacks = ground arith

analyze_file-hash_example :
    analyze_file
      (with_findings clean_services ([] ++ with_tail finding hidden ∷ []))
      (codes "8")
      purged
    ≡ analyze_file
        (with_findings clean_services ([] ++ with_tail finding [] ∷ []))
        (codes "8")
        purged
analyze_file-hash_example =
    analyze_file-hash clean_services finding [] [] hidden [] (codes "8") purged hidden-Lacks tt
