-- ===== src/Vm/Stream.antt =====
-- internal/vm/vm/logs.go: reading the messages of the agent and writing them to the log object.
use mathlib.Core.Path.{subst}
use oblak.Prelude.{
  if◌then◌else◌, Bool-cases, All, Result, ok, err, ◌≡◌, ap, inl, inr, Bool, true, false, Option,
  none, some, List, [], ◌∷◌, ◌++◌, arith, Option-cases, ◌∙◌,
}
use oblak.AgentProto.{MessageType, type_done, type_error, Message}

pub data StreamError : Type 0 where
  receive_failed upload_failed : StreamError

abbrev pub is_final : MessageType → Bool
is_final type_done = true
is_final type_error = true
is_final _ = false

-- The loop over the messages that can be received, until Receive fails: what is written to the log,
-- and the final message.
unfoldable pub receive_loop : List Message → List Message × Option Message
receive_loop [] = ([], none)
receive_loop (m ∷ ms) =
    let rest = receive_loop ms in if is_final m.type then (m ∷ [], some m) else (m ∷ rest.0, rest.1)

-- The lines written, and the final message or an error; `put_ok` is the result of PutObject.
unfoldable pub stream : Bool → List Message → List Message × Result StreamError Message
unfolding receive_loop
stream put_ok ms =
    let (lines, final) = receive_loop ms in
    elim final [
      | none ↦ (lines, err receive_failed)
      | some m ↦ (lines, if put_ok then ok m else err upload_failed)
    ]

-- The messages up to the first final one, which is the last of them.
pub record Ends (ms lines : List Message) (final : Message) : Type 0 where
  pub before : List Message
  pub behind : List Message
  pub splits : ms ≡ before ++ final ∷ behind
  pub logged : lines ≡ before ++ final ∷ []
  pub pending : All (λ m. is_final m.type ≡ false) before
  pub ends : is_final final.type ≡ true

receive_loop-Ends :
    (ms : List Message) (final : Message)
    → (receive_loop ms).1 ≡ some final
    → Ends ms (receive_loop ms).0 final
unfolding receive_loop
receive_loop-Ends [] final h = cc
receive_loop-Ends (m ∷ ms) final h = elim (Bool-cases (is_final m.type)) [
  | inl y ↦
      let e : m ≡ final = ground arith in
      record {
        before = [];
        behind = ms;
        splits = cc;
        logged = ground arith;
        pending = tt;
        ends = subst (λ x. is_final x.type ≡ true) e y;
      }
  | inr n ↦
      let rest = receive_loop-Ends ms final (ground arith) in
      record {
        before = m ∷ rest.before;
        behind = rest.behind;
        splits = ap (◌∷◌ m) rest.splits;
        logged = ground (arith, rest.logged);
        pending = (n, rest.pending);
        ends = rest.ends;
      }
]

-- A stream that succeeds returns the first done or error message, and its log holds exactly the
-- messages up to that one.
pub stream-Ends :
    (put_ok : Bool) (ms : List Message) (final : Message)
    → (stream put_ok ms).1 ≡ ok final
    → Ends ms (stream put_ok ms).0 final
unfolding stream
stream-Ends put_ok ms final h = elim (Option-cases (receive_loop ms).1) [
  | inl e ↦ absurd (ground arith)
  | inr (m, e) ↦
      let same : m ≡ final = ground arith in
      let ends = receive_loop-Ends ms final (e ∙ ap some same) in
      subst (λ lines. Ends ms lines final) (ground arith) ends
]
