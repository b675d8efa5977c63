-- ===== src/Analyzer/Sanitizer/Hidden.antt =====
-- What the language model is not shown of a finding.
use oblak.Prelude.{
  ◌==◌, if◌then◌else◌, if_true, if_false, Bool-cases, ℕ, zero, suc, ◌-◌, ◌≡◌, refl, sym, ap, ◌∙◌,
  inl, inr, Bool, true, false, not, ◌||◌, ◌&&◌, Option, none, some, [], ◌∷◌, ◌++◌, arith,
}
use oblak.Text.{Bytes, Lacks, trim_space}
use oblak.Analyzer.Sanitizer.{
  replace_all, line_length, starts_slash, line_comment, quoted, block, sanitize_code,
}

abbrev opens : ℕ → Bytes → Bool
opens c s = c == b'#' || (c == b'/' && starts_slash s)

-- The reading of a line comment byte by byte: whether the text stands inside of one.
abbrev inside_next : Bool → ℕ → Bytes → Bool
inside_next inside c s = if c == 10 then false else inside || opens c s

abbrev is_shown : Bool → ℕ → Bytes → Bool
is_shown inside c s = c == 10 || not (inside || opens c s)

pub visible : Bool → Bytes → Bytes
visible inside [] = []
visible inside (c ∷ s) =
    let rest = visible (inside_next inside c s) s in if is_shown inside c s then c ∷ rest else rest

visible_shown :
    (inside next : Bool) (c : ℕ) (s : Bytes)
    → inside_next inside c s ≡ next
    → is_shown inside c s ≡ true
    → visible inside (c ∷ s) ≡ c ∷ visible next s
unfolding visible
visible_shown inside next c s n h = if_true _ _ h ∙ ap (λ k. c ∷ visible k s) n

visible_hidden :
    (inside next : Bool) (c : ℕ) (s : Bytes)
    → inside_next inside c s ≡ next
    → is_shown inside c s ≡ false
    → visible inside (c ∷ s) ≡ visible next s
unfolding visible
visible_hidden inside next c s n h = if_false _ _ h ∙ ap (λ k. visible k s) n

replaced : (Bytes → Option ℕ) → ℕ → Bytes → Option ℕ → Bytes
replaced match c s none = c ∷ replace_all match zero s
replaced match c s (some n) = replace_all match (n - 1) s

replace_all-match :
    (match : Bytes → Option ℕ) (c : ℕ) (s : Bytes) (o : Option ℕ)
    → match (c ∷ s) ≡ o
    → replace_all match zero (c ∷ s) ≡ replaced match c s o
unfolding replaced replace_all
replace_all-match match c s none e = rw (e, replace_all)
replace_all-match match c s (some n) e = rw (e, replace_all)

module _ (c : ℕ) (s : Bytes) where
  outside-visible :
      replace_all line_comment 0 s ≡ visible false s
      → replace_all line_comment (line_length s) s ≡ visible true s
      → replace_all line_comment 0 (c ∷ s) ≡ visible false (c ∷ s)
  unfolding replaced
  outside-visible out in_comment = elim (Bool-cases (opens c s)) [
    | inl e ↦
        let text : (c == 10) ≡ false = ground arith in
        replace_all-match line_comment c s (some (suc (line_length s))) (if_true _ _ e)
        ∙ ap (λ n. replace_all line_comment n s) (omega arith)
        ∙ in_comment
        ∙ sym (visible_hidden false true c s (if_false _ _ text ∙ e) (ground (arith, text, e)))
    | inr e ↦
        replace_all-match line_comment c s none (if_false _ _ e)
        ∙ ap (◌∷◌ c) out
        ∙ sym (visible_shown false false c s (ground (arith, e)) (ground (arith, e)))
  ]

  inside-visible :
      replace_all line_comment 0 (c ∷ s) ≡ visible false (c ∷ s)
      → replace_all line_comment (line_length s) s ≡ visible true s
      → replace_all line_comment (line_length (c ∷ s)) (c ∷ s) ≡ visible true (c ∷ s)
  inside-visible out in_comment = elim (Bool-cases (c == 10)) [
    | inl e ↦
        let ends : line_length (c ∷ s) ≡ 0 = unfold line_length in if_true _ _ e in
        ap (λ n. replace_all line_comment n (c ∷ s)) ends
        ∙ out
        ∙ visible_shown false false c s (if_true _ _ e) (ground (arith, e))
        ∙ sym (visible_shown true false c s (if_true _ _ e) (ground (arith, e)))
    | inr e ↦
        let goes : line_length (c ∷ s) ≡ suc (line_length s) =
          unfold line_length in if_false _ _ e in
        let left : replace_all line_comment (suc (line_length s)) (c ∷ s) ≡ visible true s =
          unfold replace_all in in_comment in
        ap (λ n. replace_all line_comment n (c ∷ s)) goes
        ∙ left
        ∙ sym (visible_hidden true true c s (if_false _ _ e) (ground (arith, e)))
  ]

-- The regular expression removes exactly what stands inside of a comment.
replace_all-visible :
    (s : Bytes)
    → (replace_all line_comment 0 s ≡ visible false s)
      × (replace_all line_comment (line_length s) s ≡ visible true s)
replace_all-visible [] = unfold replace_all in unfold visible in (refl, refl)
replace_all-visible (c ∷ s) =
    let (out, in_comment) = replace_all-visible s in
    let first = outside-visible c s out in_comment in (first, inside-visible c s first in_comment)

-- Behind a #, a line has nothing that is shown.
visible-comment : (b : Bytes) → Lacks 10 b → visible true b ≡ []
unfolding visible
visible-comment [] h = refl
visible-comment (c ∷ b) h = ground (arith, visible-comment b h.1)

-- Nothing that is shown is a #.
visible-Lacks : (inside : Bool) (s : Bytes) → Lacks b'#' (visible inside s)
unfolding visible
visible-Lacks inside [] = tt
visible-Lacks inside (c ∷ s) = ground (arith, visible-Lacks (inside_next inside c s) s)

starts_slash-append :
    (a b b' : Bytes) → starts_slash (a ++ b'#' ∷ b) ≡ starts_slash (a ++ b'#' ∷ b')
starts_slash-append [] b b' = refl
starts_slash-append (c ∷ a) b b' = refl

visible-hash :
    (inside : Bool) (a b b' : Bytes)
    → Lacks 10 b
    → Lacks 10 b'
    → visible inside (a ++ b'#' ∷ b) ≡ visible inside (a ++ b'#' ∷ b')
unfolding visible
visible-hash inside [] b b' h h' =
    let hidden = λ (i : Bool) (t : Bytes) (l : Lacks 10 t).
      visible_hidden i true b'#' t (ground arith) (ground arith) ∙ visible-comment t l in
    hidden inside b h ∙ sym (hidden inside b' h')
visible-hash inside (c ∷ a) b b' h h' = ground (
  arith,
  starts_slash-append a b b',
  visible-hash true a b b' h h',
  visible-hash false a b b' h h',
)

-- What stands behind a # on the last line of a text is not shown, whatever it is, and also where the
-- # stands in a string.
pub sanitize_code-hash :
    (a b b' : Bytes)
    → Lacks 10 b
    → Lacks 10 b'
    → sanitize_code (a ++ b'#' ∷ b) ≡ sanitize_code (a ++ b'#' ∷ b')
unfolding sanitize_code
sanitize_code-hash a b b' h h' =
    let shown = λ (t : Bytes). (replace_all-visible (a ++ b'#' ∷ t)).0 in
    ap (λ s. trim_space (replace_all block 0 (replace_all quoted 0 s)))
      (shown b ∙ visible-hash false a b b' h h' ∙ sym (shown b'))
