-- ===== src/Server/Logs.antt =====
-- internal/server/invocations/logs.go: the log of an invocation, read back line by line. The times
-- of the lines, which are the times of the reading, are left out.
pub mod Written
use oblak.Prelude.{
  ltb, leb, ◌==◌, if◌then◌else◌, length, Result, err, ok, ℕ, Bool, true, false, ◌&&◌, ◌||◌, Option,
  none, some, List, [], ◌∷◌,
}
use oblak.Text.{Bytes, codes, bytes_eq, has_prefix, strip_prefix, contains, trim_space, split}

pub record LogLine : Type 0 where
  pub stream : Bytes
  pub message : Bytes

pub data LogError : Type 0 where
  unreachable_object line_too_long : LogError

-- The limit of bufio.Scanner.
abbrev pub max_line : ℕ
max_line = 65536

abbrev pub is_word : ℕ → Bool
is_word c =
    (leb b'a' c && leb c b'z')
    || (leb b'A' c && leb c b'Z')
    || (leb b'0' c && leb c b'9')
    || c == b'_'
    || c == b'-'

-- \s of the regular expression.
abbrev pub is_gap : ℕ → Bool
is_gap c = c == b' ' || c == 9 || c == 10 || c == 12 || c == 13

-- The longest prefix of bytes that pass the test, and what is behind it.
abbrev cons_first : ℕ → Bytes × Bytes → Bytes × Bytes
cons_first c p = (c ∷ p.0, p.1)

unfoldable pub span : (ℕ → Bool) → Bytes → Bytes × Bytes
span p [] = ([], [])
span p (c ∷ s) = let rest = span p s in if p c then cons_first c rest else ([], c ∷ s)

-- `[a-zA-Z0-9_-]+\s+data:(.*)` at the start of a text. Neither repetition can give a byte back: the
-- classes are disjoint, and no blank starts "data:".
abbrev at_data : Bytes → Bytes × Bytes → Option (Bytes × Bytes)
at_data channel ([], rest) = none
at_data channel (gap ∷ gaps, rest) =
    if has_prefix rest (codes "data:")
    then some (channel, strip_prefix rest (codes "data:"))
    else none

at_channel : Bytes × Bytes → Option (Bytes × Bytes)
unfolding span
at_channel ([], rest) = none
at_channel (c ∷ word, rest) = at_data (c ∷ word) (span is_gap rest)

match_here : Bytes → Option (Bytes × Bytes)
unfolding at_channel
match_here s =
    if has_prefix s (codes "channel:")
    then at_channel (span is_word (strip_prefix s (codes "channel:")))
    else none

abbrev first_of : Option (Bytes × Bytes) → Option (Bytes × Bytes) → Option (Bytes × Bytes)
first_of none o = o
first_of (some m) o = some m

-- logRegex.FindStringSubmatch: the leftmost match, as its two groups.
unfoldable pub find_submatch : Bytes → Option (Bytes × Bytes)
unfolding match_here
find_submatch [] = match_here []
find_submatch (c ∷ s) = first_of (match_here (c ∷ s)) (find_submatch s)

abbrev is_empty : Bytes → Bool
is_empty [] = true
is_empty (c ∷ s) = false

-- strings.TrimSuffix(message, "}")
unfoldable pub trim_brace : Bytes → Bytes
trim_brace [] = []
trim_brace (c ∷ s) = let rest = trim_brace s in if is_empty s && c == b'}' then [] else c ∷ rest

abbrev pub stream_target : Bytes → Bytes
stream_target channel =
    if bytes_eq channel (codes "stderr") || bytes_eq channel (codes "system")
    then channel
    else codes "stdout"

abbrev pub finished_line : LogLine
finished_line = record {
  stream = codes "system";
  message = codes "Execution finished successfully.";
}

plain_or_matched : Bytes → Option (Bytes × Bytes) → LogLine
plain_or_matched line none = record { stream = codes "stdout"; message = line }
plain_or_matched line (some (channel, message)) = record {
  stream = stream_target channel;
  message = trim_space (trim_brace message);
}

-- One trimmed line; `none` is one that is skipped.
unfoldable pub read_line : Bytes → Option LogLine
unfolding plain_or_matched
read_line line =
    if is_empty line || bytes_eq line (codes "}")
    then none
    else if contains line (codes "type:done")
    then some finished_line
    else some (plain_or_matched line (find_submatch line))

abbrev cons_line : Option LogLine → List LogLine → List LogLine
cons_line none ls = ls
cons_line (some l) ls = l ∷ ls

unfoldable pub read_lines : List Bytes → Result LogError (List LogLine)
read_lines [] = ok []
read_lines (line ∷ lines) =
    let rest = read_lines lines in
    if ltb (length line) max_line
    then (elim rest [ err e ↦ err e | ok ls ↦ ok (cons_line (read_line (trim_space line)) ls) ])
    else err line_too_long

-- GetLogsByInvocationId; `object` is the object, or `none` where it cannot be read.
unfoldable pub get_logs_by_invocation_id : Option Bytes → Result LogError (List LogLine)
unfolding read_lines
get_logs_by_invocation_id none = err unreachable_object
get_logs_by_invocation_id (some object) = read_lines (split 10 object)
