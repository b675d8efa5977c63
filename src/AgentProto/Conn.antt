-- ===== src/AgentProto/Conn.antt =====
-- Conn of internal/agentproto/proto.go: messages as lines of JSON on a connection. encoding/json is a
-- parameter. Receive returns the message after Unmarshal has filled it, in the order of the compiler.
use oblak.Prelude.{
  ltb, ◌==◌, if◌then◌else◌, lt→ltb, length, length-append, All, ℕ, zero, suc, ◌+◌, ◌*◌, ◌≤◌, ◌<◌,
  ◌≡◌, refl, ap, ◌∙◌, Bool, true, Option, none, some, List, [], ◌∷◌, ◌++◌, append_assoc, arith,
}
use oblak.Text.{Bytes, cut, Lacks, cut-append}
use oblak.AgentProto.{Message, output}

abbrev pub max_message_size : ℕ
max_message_size = 1048576

-- The bytes of the texts of a message.
abbrev pub text_length : Message → ℕ
text_length m = length m.channel + (length m.content + length m.error)

-- json.Marshal and json.Unmarshal, as documented: what is encoded is decoded again where its texts are
-- valid UTF-8; control characters are escaped, and a byte of a text takes at most six. 128 bytes hold
-- the names of the fields, the type and the exit code.
pub record Json : Type 0 where
  pub encode : Message → Bytes
  pub decode : Bytes → Option Message
  pub is_valid : Message → Bool
  pub decode-encode : (m : Message) → is_valid m ≡ true → decode (encode m) ≡ some m
  pub encode_printable : (m : Message) → All (λ c. 32 ≤ c) (encode m)
  pub encode_bounded : (m : Message) → length (encode m) ≤ 128 + 6 * text_length m

pub data Received : Type 0 where
  eof too_long bad_json : Received
  message : Message → Bytes → Received

-- The scanner drops a carriage return at the end of a line.
abbrev drop_cr : ℕ → Bytes → Bytes
drop_cr c [] = if c == 13 then [] else c ∷ []
drop_cr c (d ∷ s) = c ∷ d ∷ s

unfoldable pub trim_cr : Bytes → Bytes
trim_cr [] = []
trim_cr (c ∷ s) = drop_cr c (trim_cr s)

module _ (j : Json) where
  -- Send: what is written to the connection.
  unfoldable pub send : Message → Bytes
  send m = j.encode m ++ 10 ∷ []

  abbrev decoded : Bytes → Option Message → Received
  decoded rest none = bad_json
  decoded rest (some m) = message m rest

  -- A line of the scanner: a line that fills its buffer is an error.
  token : Bytes → Bytes → Received
  token line rest =
      if ltb (length line) max_message_size
      then decoded rest (j.decode (trim_cr line))
      else too_long

  last_line : Bytes → Received
  unfolding token
  last_line [] = eof
  last_line (c ∷ s) = token (c ∷ s) []

  first_line : Bytes → Option (Bytes × Bytes) → Received
  unfolding last_line
  first_line s none = last_line s
  first_line s (some (line, rest)) = token line rest

  -- Receive on the bytes that are still to come.
  unfoldable pub receive : Bytes → Received
  unfolding first_line
  receive s = first_line s (cut 10 s)

  unfoldable pub send_all : List Message → Bytes
  send_all [] = []
  send_all (m ∷ ms) = send m ++ send_all ms

  -- Receive until it fails, at most `fuel` times; the messages, and how it failed.
  abbrev then_message : Message → List Message × Received → List Message × Received
  then_message m r = (m ∷ r.0, r.1)

  abbrev after : (Bytes → List Message × Received) → Received → List Message × Received
  after continue eof = ([], eof)
  after continue too_long = ([], too_long)
  after continue bad_json = ([], bad_json)
  after continue (message m rest) = then_message m (continue rest)

  unfoldable pub receive_all : ℕ → Bytes → List Message × Received
  receive_all zero s = ([], receive s)
  receive_all (suc fuel) s = after (receive_all fuel) (receive s)

  -- A message that the connection carries unchanged.
  abbrev pub IsCarried : Message → Type 0
  IsCarried m = (j.is_valid m ≡ true) × (128 + 6 * text_length m < max_message_size)

  printable-Lacks : (s : Bytes) → All (λ c. 32 ≤ c) s → Lacks 10 s
  printable-Lacks [] h = tt
  printable-Lacks (c ∷ s) h = (λ e. absurd (omega (arith, h.0, e)), printable-Lacks s h.1)

  trim_cr-printable : (s : Bytes) → All (λ c. 32 ≤ c) s → trim_cr s ≡ s
  unfolding trim_cr
  trim_cr-printable [] h = refl
  trim_cr-printable (c ∷ []) h = ground (arith, h.0)
  trim_cr-printable (c ∷ d ∷ s) h = rw (trim_cr-printable (d ∷ s) h.1)

  token-encode :
      (m : Message) (rest : Bytes) → IsCarried m → token (j.encode m) rest ≡ message m rest
  unfolding token
  token-encode m rest h =
      let short : ltb (length (j.encode m)) max_message_size ≡ true =
        lt→ltb _ _ (omega (arith, j.encode_bounded m, h.1)) in
      rw (short, trim_cr-printable (j.encode m) (j.encode_printable m), j.decode-encode m h.0)

  receive-send :
      (m : Message) (rest : Bytes) → IsCarried m → receive (send m ++ rest) ≡ message m rest
  unfolding receive send first_line
  receive-send m rest h =
      let line = j.encode m in
      let found = cut-append 10 line rest (printable-Lacks line (j.encode_printable m)) in
      ap receive (append_assoc line (10 ∷ []) rest)
      ∙ ap (first_line (line ++ 10 ∷ rest)) found
      ∙ token-encode m rest h

  -- Messages that are sent are received again, in their order, and then the end of the connection, if
  -- their texts are valid and short enough.
  pub receive_all-send_all :
      (ms : List Message) → All IsCarried ms → receive_all (length ms) (send_all ms) ≡ (ms, eof)
  unfolding receive_all send_all
  receive_all-send_all [] h = unfold receive in unfold cut in refl
  receive_all-send_all (m ∷ ms) h =
      ap (after (receive_all (length ms))) (receive-send m (send_all ms) h.0)
      ∙ ap (then_message m) (receive_all-send_all ms h.1)

-- Whatever line of a command the agent reads, its message fits: the scanner of the agent gives lines
-- below 64 KiB, and its channels have at most six letters.
pub output_fits :
    (channel line : Bytes)
    → length channel ≤ 6
    → length line < 65536
    → 128 + 6 * text_length (output channel (line ++ 10 ∷ [])) < max_message_size
output_fits channel line h k = omega (arith, length-append {0} line (10 ∷ []))
