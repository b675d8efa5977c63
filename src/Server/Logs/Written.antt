-- ===== src/Server/Logs/Written.antt =====
-- internal/vm/vm/logs.go and internal/agentproto: the lines that the host writes, and what is read
-- back from them.
use oblak.Prelude.{length, All, ℕ, ◌<◌, ◌≡◌, true, false, List, [], ◌∷◌, ◌++◌}
use oblak.Text.{Bytes, codes, contains, is_space, trim_space, Lacks}
use oblak.AgentProto.{ℤ, output, done, message_string}
use oblak.Server.Logs.{LogLine, max_line, is_word, trim_brace, stream_target}

-- A line that the agent sent for one of its channels.
abbrev pub output_line : Bytes × Bytes → Bytes
output_line l = codes "{type:output channel:" ++ (l.0 ++ (codes " data:" ++ l.1))

-- What the host writes for the lines and the done message of a job: each message, and a line break.
unfoldable pub log_text : (ℤ → Bytes) → Bytes → ℤ → List (Bytes × Bytes) → Bytes
unfolding message_string
log_text decimal unknown code [] = message_string decimal unknown (done code) ++ 10 ∷ []
log_text decimal unknown code (l ∷ ls) =
    message_string decimal unknown (output l.0 (l.1 ++ 10 ∷ []))
    ++ (10 ∷ log_text decimal unknown code ls)

-- Lines whose text survives the reader: the channel is a word, the text ends with a byte that is
-- not blank, the line is below the limit of the scanner and holds no "type:done".
pub record IsReadable (l : Bytes × Bytes) : Type 0 where
  pub letter : ℕ
  pub letters : Bytes
  pub channel_is : l.0 ≡ letter ∷ letters
  pub word : All (λ c. is_word c ≡ true) l.0
  pub front : Bytes
  pub end : ℕ
  pub text_is : l.1 ≡ front ++ end ∷ []
  pub end_shown : is_space end ≡ false
  pub plain : contains (output_line l) (codes "type:done") ≡ false
  pub one_line : Lacks 10 (output_line l)
  pub short : length (output_line l) < max_line

-- What the reader shows for a line.
abbrev pub shown : Bytes × Bytes → LogLine
shown l = record { stream = stream_target l.0; message = trim_space (trim_brace l.1) }

-- The text of a code is short and stays on its line.
abbrev pub IsNumeral : Bytes → Type 0
IsNumeral s = Lacks 10 s × (length s < 100)

abbrev done_line : Bytes → Bytes
done_line numeral = codes "{type:done exit_code:" ++ (numeral ++ codes " error:}")
