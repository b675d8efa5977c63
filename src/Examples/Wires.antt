-- ===== src/Examples/Wires.antt =====
-- The lines of the agent protocol at concrete inputs, with an encoding that carries a type and a text.
use oblak.Prelude.{
  leb, if◌then◌else◌, ◌==◌, length, All, ℕ, ◌≤◌, ◌≡◌, refl, Bool, true, false, Option, none, some,
  List, [], ◌∷◌, arith,
}
use oblak.Text.{Bytes, codes, bytes_eq, bytes_eq_iff, cut}
use oblak.AgentProto.{
  ℤ, MessageType, type_build, type_exec, type_output, type_done, type_error, other, Message,
}
use oblak.AgentProto.Conn.{
  Json, eof, message, receive, trim_cr, IsCarried, send_all, receive_all, receive_all-send_all,
}

-- The printable bytes.
shown : Bytes → Bytes
shown [] = []
shown (c ∷ s) = if leb 32 c then c ∷ shown s else shown s

shown-All : (s : Bytes) → All (λ c. 32 ≤ c) (shown s)
unfolding shown
shown-All [] = tt
shown-All (c ∷ s) = ground (arith, shown-All s)

length-shown : (s : Bytes) → length (shown s) ≤ length s
unfolding shown
length-shown [] = omega arith
length-shown (c ∷ s) = ground (arith, length-shown s)

abbrev letter : MessageType → ℕ
letter type_build = 66
letter type_exec = 69
letter type_output = 79
letter type_done = 68
letter type_error = 88
letter other = 63

type_of : ℕ → MessageType
type_of c =
    if c == 66
    then type_build
    else if c == 69
    then type_exec
    else if c == 79
    then type_output
    else if c == 68
    then type_done
    else if c == 88
    then type_error
    else other

type_of-letter : (t : MessageType) → type_of (letter t) ≡ t
unfolding type_of
type_of-letter type_build = refl
type_of-letter type_exec = refl
type_of-letter type_output = refl
type_of-letter type_done = refl
type_of-letter type_error = refl
type_of-letter other = refl

letter_printable : (t : MessageType) → 32 ≤ letter t
letter_printable type_build = omega arith
letter_printable type_exec = omega arith
letter_printable type_output = omega arith
letter_printable type_done = omega arith
letter_printable type_error = omega arith
letter_printable other = omega arith

abbrev with_content : MessageType → Bytes → Message
with_content t s = record { type = t; channel = []; content = s; exit_code = none; error = [] }

abbrev decode : Bytes → Option Message
decode [] = none
decode (c ∷ s) = some (with_content (type_of c) s)

-- The messages of a type and a printable text only.
is_plain : Bytes → Bytes → Option ℤ → Bytes → Bool
unfolding shown
is_plain [] content none [] = bytes_eq (shown content) content
is_plain _ _ _ _ = false

decode-plain :
    (t : MessageType) (channel content : Bytes) (exit_code : Option ℤ) (error : Bytes)
    → is_plain channel content exit_code error ≡ true
    → decode (letter t ∷ shown content)
      ≡ some (record {
        type = t;
        channel = channel;
        content = content;
        exit_code = exit_code;
        error = error;
      })
unfolding is_plain
decode-plain t [] content none [] h =
    rw (type_of-letter t, (bytes_eq_iff (shown content) content).0 h)
decode-plain t [] content none (_ ∷ _) h = absurd (cc h)
decode-plain t [] content (some _) _ h = absurd (cc h)
decode-plain t (_ ∷ _) content _ _ h = absurd (cc h)

abbrev plain_json : Json
plain_json = record {
  encode = λ m. letter m.type ∷ shown m.content;
  decode = decode;
  is_valid = λ m. is_plain m.channel m.content m.exit_code m.error;
  decode-encode = λ m h. decode-plain m.type m.channel m.content m.exit_code m.error h;
  encode_printable = λ m. (letter_printable m.type, shown-All m.content);
  encode_bounded = λ m. omega (arith, length-shown m.content);
}

abbrev messages : List Message
messages = with_content type_output (codes "hello") ∷ with_content type_done [] ∷ []

messages-IsCarried : All (IsCarried plain_json) messages
unfolding is_plain shown bytes_eq
messages-IsCarried = ((refl, omega arith), ((refl, omega arith), tt))

receive_all-send_all_example :
    receive_all plain_json 2 (send_all plain_json messages) ≡ (messages, eof)
receive_all-send_all_example = receive_all-send_all plain_json messages messages-IsCarried

-- A line that is not closed is read at the end of the connection.
last_line_test : receive plain_json (codes "Dok") ≡ message (with_content type_done (codes "ok")) []
unfolding receive cut trim_cr type_of
last_line_test = refl
