-- ===== src/Analyzer/Sanitizer.antt =====
-- internal/analyzer/sanitizer/code_senitizer.go: the text of a finding without its comments, as the
-- language model is shown it. A regular expression is the length of its match at the start of a text.
pub mod Hidden
use mathlib.Core.Option
use oblak.Prelude.{
  ◌==◌, if◌then◌else◌, drop, ℕ, zero, suc, ◌+◌, ◌-◌, Bool, true, false, ◌||◌, ◌&&◌, Option, none,
  some, [], ◌∷◌,
}
use oblak.Text.{Bytes, codes, has_prefix, trim_space}
use oblak.Analyzer.Dast.Search.{index_str}

-- ReplaceAllString with the empty text: matches from the left that do not overlap. The number counts
-- the bytes of a match that are still to be left out.
unfoldable pub replace_all : (Bytes → Option ℕ) → ℕ → Bytes → Bytes
replace_all match n [] = []
replace_all match (suc n) (c ∷ s) = replace_all match n s
replace_all match zero (c ∷ s) = elim (match (c ∷ s)) [
  | none ↦ c ∷ replace_all match zero s
  | some n ↦ replace_all match (n - 1) s
]

-- `.*$` with the flag m: the bytes up to the end of the line.
unfoldable pub line_length : Bytes → ℕ
line_length [] = 0
line_length (c ∷ s) = let rest = line_length s in if c == 10 then 0 else suc rest

abbrev pub starts_slash : Bytes → Bool
starts_slash [] = false
starts_slash (c ∷ s) = c == b'/'

-- `(?m)(#|//).*$`
abbrev pub line_comment : Bytes → Option ℕ
line_comment [] = none
line_comment (c ∷ s) =
    if c == b'#' || (c == b'/' && starts_slash s) then some (suc (line_length s)) else none

-- An opening text, the shortest text behind it, and a closing text.
unfoldable pub enclosed : Bytes → Bytes → ℕ → Bytes → Option ℕ
enclosed opening closing n s =
    if has_prefix s opening
    then Option.map (λ k. n + (k + n)) (index_str (drop n s) closing)
    else none

abbrev or_else : Option ℕ → Option ℕ → Option ℕ
or_else none o = o
or_else (some n) o = some n

-- `(?s)"""(.*?)"""|'''(.*?)'''`
abbrev pub quoted : Bytes → Option ℕ
quoted s =
    or_else (enclosed (34 ∷ 34 ∷ 34 ∷ []) (34 ∷ 34 ∷ 34 ∷ []) 3 s)
      (enclosed (39 ∷ 39 ∷ 39 ∷ []) (39 ∷ 39 ∷ 39 ∷ []) 3 s)

-- `(?s)/\*.*?\*/`
abbrev pub block : Bytes → Option ℕ
block s = enclosed (codes "/*") (codes "*/") 2 s

-- SanitizeCode
unfoldable pub sanitize_code : Bytes → Bytes
sanitize_code code =
    trim_space (replace_all block 0 (replace_all quoted 0 (replace_all line_comment 0 code)))
