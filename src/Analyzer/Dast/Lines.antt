-- ===== src/Analyzer/Dast/Lines.antt =====
-- internal/analyzer/dast/helpers.go: the lines that the sandbox writes when a call returns, and
-- what the parser reads from them.
use oblak.Prelude.{
  ◌==◌, length, All-append, ℕ, ◌+◌, ◌≡◌, refl, true, false, none, some, [], ◌∷◌, ◌++◌, append_assoc,
  arith,
}
use oblak.Text.{Bytes, codes, has_prefix, has_prefix-append, Lacks}
use oblak.Analyzer.Dast.Search.{
  index_byte, index_str, contains_str, index_byte-append, index_str-append, take-append, drop-add,
  Unbroken, trim_space-Unbroken,
}
use oblak.Analyzer.Dast.Fields.{
  until, is_clock, extract_timestamp, last_bracket, extract_body, ret_text, return_value,
}

-- A returned call, in the parts of its line.
pub record Exit : Type 0 where
  pub head : Bytes
  pub stamp : Bytes
  pub place : Bytes
  pub process : Bytes
  pub op : Bytes
  pub args : Bytes
  pub ret : Bytes
  pub note : Bytes

abbrev pub in_front : Exit → Bytes
in_front e = e.head ++ b' ' ∷ (e.stamp ++ b' ' ∷ e.place)

-- What stands behind the name of the call.
abbrev pub args_section : Exit → Bytes
args_section e = b'(' ∷ (e.args ++ (codes ") = " ++ (e.ret ++ (codes " (" ++ e.note))))

abbrev pub body : Exit → Bytes
body e = e.op ++ args_section e

abbrev pub behind : Exit → Bytes
behind e = e.process ++ (codes " X " ++ body e)

-- "head stamp place] process X op(args) = ret (note"
abbrev pub render : Exit → Bytes
render e = in_front e ++ (codes "] " ++ behind e)

pub record IsExit (e : Exit) : Type 0 where
  pub head_solid : Lacks b' ' e.head
  pub stamp_solid : Lacks b' ' e.stamp
  pub clock : is_clock e.stamp ≡ true
  pub last : last_bracket (behind e) ≡ none
  pub process_solid : Lacks b' ' e.process
  pub op_plain : Lacks b'(' e.op
  pub no_assign : index_str (e.op ++ b'(' ∷ e.args) (codes " = ") ≡ none
  pub ret_plain : Lacks b'(' e.ret
  pub ret_unbroken : Unbroken e.ret
  pub one_line : Lacks 10 (render e)

until-append : (s t : Bytes) (b : ℕ) → Lacks b s → until (λ d. d == b) (s ++ b ∷ t) ≡ s
until-append [] t b h = ground arith
until-append (c ∷ s) t b h = ground (arith, until-append s t b h.1)

is_clock-append : (s t : Bytes) → is_clock s ≡ true → is_clock (s ++ t) ≡ true
unfolding is_clock
is_clock-append (h ∷ h' ∷ c ∷ m ∷ m' ∷ d ∷ s ∷ s' ∷ e ∷ rest) t eq = eq
is_clock-append _ t eq = cc

stamp_append :
    (s stamp t : Bytes)
    → Lacks b' ' s
    → Lacks b' ' stamp
    → is_clock stamp ≡ true
    → extract_timestamp (s ++ b' ' ∷ (stamp ++ b' ' ∷ t)) ≡ stamp
unfolding extract_timestamp
stamp_append [] stamp t h k c =
    rw (is_clock-append stamp (b' ' ∷ t) c) (until-append stamp t b' ' k)
stamp_append (d ∷ s) stamp t h k c = ground (arith, stamp_append s stamp t h.1 k c)

pub last_bracket-append :
    (s t : Bytes) → last_bracket t ≡ none → last_bracket (s ++ (codes "] " ++ t)) ≡ some (length s)
unfolding last_bracket has_prefix
last_bracket-append [] t h = rw h
last_bracket-append (c ∷ s) t h = rw (last_bracket-append s t h)

contains_str-cons : (c : ℕ) (s w : Bytes) → contains_str s w ≡ true → contains_str (c ∷ s) w ≡ true
unfolding contains_str index_str
contains_str-cons c s w h = ground (arith, h)

contains_str-append : (s t w : Bytes) → contains_str t w ≡ true → contains_str (s ++ t) w ≡ true
contains_str-append [] t w h = h
contains_str-append (c ∷ s) t w h = contains_str-cons c (s ++ t) w (contains_str-append s t w h)

contains_str_self : (w t : Bytes) → contains_str (w ++ t) w ≡ true
unfolding contains_str index_str has_prefix
contains_str_self [] [] = refl
contains_str_self [] (c ∷ t) = refl
contains_str_self (c ∷ w) t = rw (has_prefix-append (c ∷ w) t) refl

index_str-none :
    (c : ℕ) (s w : Bytes)
    → index_str (c ∷ s) w ≡ none
    → (has_prefix (c ∷ s) w ≡ false) × (index_str s w ≡ none)
unfolding index_str
index_str-none c s w h = ground arith

assign_prefix :
    (c : ℕ) (s t : Bytes)
    → has_prefix (c ∷ s) (codes " = ") ≡ false
    → has_prefix (c ∷ (s ++ (codes ") = " ++ t))) (codes " = ") ≡ false
unfolding has_prefix
assign_prefix c [] t h = ground arith
assign_prefix c (d ∷ []) t h = ground arith
assign_prefix c (d ∷ e ∷ s) t h = h

-- The text of an assignment is found behind a text that has none and ends in a parenthesis.
assign_append :
    (s t : Bytes)
    → index_str s (codes " = ") ≡ none
    → index_str (s ++ (codes ") = " ++ t)) (codes " = ") ≡ some (length s + 1)
unfolding index_str
assign_append [] t h = unfold has_prefix in refl
assign_append (c ∷ s) t h =
    let (misses, rest) = index_str-none c s (codes " = ") h in
    rw (assign_prefix c s t misses, assign_append s t rest) (ground arith)

pub render-timestamp : (e : Exit) → IsExit e → extract_timestamp (render e) ≡ e.stamp
render-timestamp e x =
    rw
      (
        append_assoc e.head (b' ' ∷ (e.stamp ++ b' ' ∷ e.place)) (codes "] " ++ behind e),
        append_assoc e.stamp (b' ' ∷ e.place) (codes "] " ++ behind e),
      )
      (stamp_append e.head e.stamp _ x.head_solid x.stamp_solid x.clock)

pub render-body : (e : Exit) → IsExit e → extract_body (render e) ≡ body e
unfolding extract_body
render-body e x =
    rw
      (
        last_bracket-append (in_front e) (behind e) x.last,
        drop-add 2 (in_front e) (codes "] " ++ behind e),
        index_str-append e.process (body e) (codes "X ") b' ' x.process_solid,
      )
      (drop-add 3 e.process (codes " X " ++ body e))

pub render-contains : (e : Exit) → contains_str (render e) (codes " X ") ≡ true
render-contains e = contains_str-append (in_front e) _ _ (
    contains_str-append (codes "] ") _ _
      (contains_str-append e.process (codes " X " ++ body e) (codes " X ") (contains_str_self _ _)))

ret_text-append :
    (ret note : Bytes)
    → Lacks b'(' ret
    → Unbroken ret
    → let text = ret ++ (codes " (" ++ note) in ret_text text (index_byte text b'(') ≡ ret
unfolding ret_text
ret_text-append ret note h k =
    let front = ret ++ b' ' ∷ [] in
    rw
      (
        ← append_assoc ret (b' ' ∷ []) (b'(' ∷ note),
        index_byte-append front note b'(' (All-append _ ret _ h (λ e. cc, tt)),
        take-append front (b'(' ∷ note),
      )
      (trim_space-Unbroken ret k)

pub render-value : (e : Exit) → IsExit e → return_value (body e) ≡ e.ret
unfolding return_value
render-value e x =
    let rest = e.ret ++ (codes " (" ++ e.note) in
    let n = length (e.op ++ b'(' ∷ e.args) in
    let plus : n + 1 + 3 ≡ n + 4 = omega arith in
    rw
      (
        ← append_assoc e.op (b'(' ∷ e.args) (codes ") = " ++ rest),
        assign_append (e.op ++ b'(' ∷ e.args) rest x.no_assign,
        plus,
        drop-add 4 (e.op ++ b'(' ∷ e.args) (codes ") = " ++ rest),
      )
      (ret_text-append e.ret e.note x.ret_plain x.ret_unbroken)
