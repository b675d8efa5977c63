-- ===== src/Analyzer/Dast/Search.antt =====
-- internal/analyzer/dast/helpers.go: searching text. A position is an `Option`, `none` for -1.
use mathlib.Core.Option
use oblak.Prelude.{
  ◌==◌, if◌then◌else◌, is_some, length, take, drop, All, ℕ, suc, ◌+◌, ◌≡◌, refl, ap, ◌≢◌, Bool,
  false, ◌||◌, Option, none, some, List, [], ◌∷◌, ◌++◌, append-nil, append_assoc, arith,
}
use oblak.Text.{Bytes, has_prefix, has_prefix-append, Lacks}

unfoldable pub index_byte : Bytes → ℕ → Option ℕ
index_byte [] b = none
index_byte (c ∷ s) b = let rest = index_byte s b in if c == b then some 0 else Option.map suc rest

unfoldable pub index_str : Bytes → Bytes → Option ℕ
index_str [] sub = if has_prefix [] sub then some 0 else none
index_str (c ∷ s) sub =
    let rest = index_str s sub in if has_prefix (c ∷ s) sub then some 0 else Option.map suc rest

unfoldable pub contains_str : Bytes → Bytes → Bool
unfolding index_str
contains_str s sub = is_some (index_str s sub)

abbrev pub is_blank : ℕ → Bool
is_blank c = c == b' ' || c == 9

trim_start : Bytes → Bytes
trim_start [] = []
trim_start (c ∷ s) = let rest = trim_start s in if is_blank c then rest else c ∷ s

abbrev drop_blank : ℕ → Bytes → Bytes
drop_blank c [] = if is_blank c then [] else c ∷ []
drop_blank c (d ∷ s) = c ∷ d ∷ s

trim_end : Bytes → Bytes
trim_end [] = []
trim_end (c ∷ s) = drop_blank c (trim_end s)

unfoldable pub trim_space : Bytes → Bytes
unfolding trim_start trim_end
trim_space s = trim_end (trim_start s)

-- The lines of a text; a last line with no line break counts if it is not empty.
abbrev end_line : Bytes → List Bytes
end_line [] = []
end_line (c ∷ s) = (c ∷ s) ∷ []

lines_from : Bytes → Bytes → List Bytes
lines_from line [] = end_line line
lines_from line (c ∷ s) =
    let ends = line ∷ lines_from [] s in
    let goes = lines_from (line ++ c ∷ []) s in if c == 10 then ends else goes

unfoldable pub split_lines : Bytes → List Bytes
unfolding lines_from
split_lines s = lines_from [] s

pub index_byte-append :
    (s t : Bytes) (b : ℕ) → Lacks b s → index_byte (s ++ b ∷ t) b ≡ some (length s)
unfolding index_byte
index_byte-append [] t b h = ground arith
index_byte-append (c ∷ s) t b h = ground (arith, index_byte-append s t b h.1)

-- A word that starts with a byte which the text in front lacks is found behind that text.
pub index_str-append :
    (s t w : Bytes) (b : ℕ) → Lacks b s → index_str (s ++ ((b ∷ w) ++ t)) (b ∷ w) ≡ some (length s)
unfolding index_str has_prefix
index_str-append [] t w b h = rw (has_prefix-append (b ∷ w) t)
index_str-append (c ∷ s) t w b h = ground (arith, index_str-append s t w b h.1)

pub take-append : (s t : Bytes) → take (length s) (s ++ t) ≡ s
take-append [] t = refl
take-append (c ∷ s) t = ap (◌∷◌ c) (take-append s t)

pub drop-add : (n : ℕ) (s t : Bytes) → drop (length s + n) (s ++ t) ≡ drop n t
drop-add n [] t = let e : 0 + n ≡ n = omega arith in rw e
drop-add n (c ∷ s) t =
    let e : suc (length s) + n ≡ suc (length s + n) = omega arith in rw e (drop-add n s t)

-- Text with no blank byte.
abbrev pub Unbroken : Bytes → Type 0
Unbroken s = All (λ c. is_blank c ≡ false) s

trim_start-Unbroken : (s t : Bytes) → Unbroken s → s ≢ [] → trim_start (s ++ t) ≡ s ++ t
unfolding trim_start
trim_start-Unbroken [] t h ne = absurd (ne refl)
trim_start-Unbroken (c ∷ s) t h ne = rw h.0

trim_end-Unbroken : (s : Bytes) → Unbroken s → trim_end (s ++ b' ' ∷ []) ≡ s
unfolding trim_end
trim_end-Unbroken [] h = refl
trim_end-Unbroken (c ∷ []) h = ground arith
trim_end-Unbroken (c ∷ d ∷ s) h = rw (trim_end-Unbroken (d ∷ s) h.1)

pub trim_space-Unbroken : (s : Bytes) → Unbroken s → trim_space (s ++ b' ' ∷ []) ≡ s
unfolding trim_space
trim_space-Unbroken [] h = unfold trim_start in unfold trim_end in refl
trim_space-Unbroken (c ∷ s) h =
    rw (trim_start-Unbroken (c ∷ s) (b' ' ∷ []) h (λ e. cc)) (trim_end-Unbroken (c ∷ s) h)

lines_from-append :
    (line s t : Bytes) → Lacks 10 s → lines_from line (s ++ 10 ∷ t) ≡ (line ++ s) ∷ lines_from [] t
unfolding lines_from
lines_from-append line [] t h = ground (arith, append-nil line)
lines_from-append line (c ∷ s) t h =
    ground (arith, lines_from-append (line ++ c ∷ []) s t h.1, append_assoc line (c ∷ []) s)

pub split_lines-append : (s t : Bytes) → Lacks 10 s → split_lines (s ++ 10 ∷ t) ≡ s ∷ split_lines t
unfolding split_lines
split_lines-append s t h = lines_from-append [] s t h
