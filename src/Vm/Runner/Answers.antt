-- ===== src/Vm/Runner/Answers.antt =====
-- The part of a run between the start of its machine and the final message.
use oblak.Prelude.{
  Bool-cases, ok, err, Result-cases, ℕ, ◌≡◌, refl, ◌⊎◌, inl, inr, Bool, true, false, ◌||◌, Option,
  none, some, List, [], ◌∷◌, ◌++◌, arith,
}
use oblak.Text.{Bytes}
use oblak.AgentProto.{Message}
use oblak.Vm.Connect.{connected, connect, Connected-cases}
use oblak.Vm.Drive.{Host, DriveMount}
use oblak.Vm.Stream.{stream}
use oblak.Vm.Runner.{
  RunError, connect_failed, send_failed, save_failed, log_failed, user_error, Event, sent, logged,
  saved, RunCalls, converse,
}

-- The agent accepts the connection and the request, and the stream of its messages ends with `m`.
pub record IsAnswered (c : RunCalls) (m : Message) : Type 0 where
  pub accepted : (n : ℕ) × (connect c.attempts ≡ connected n)
  pub is_sent : c.send_ok ≡ true
  pub streamed : (stream c.put_ok c.messages).1 ≡ ok m

-- The lines of the log.
abbrev pub lines_of : RunCalls → List Message
lines_of c = (stream c.put_ok c.messages).0

-- The errors of a run before its final message.
abbrev pub is_early : Option RunError → Bool
is_early none = false
is_early (some save_failed) = false
is_early (some user_error) = false
is_early (some _) = true

abbrev is_saving : Event → Bool
is_saving (saved _) = true
is_saving _ = false

-- Whether a drive is uploaded.
abbrev pub is_saved : List Event → Bool
is_saved [] = false
is_saved (e ∷ es) = is_saving e || is_saved es

pub is_saved-append : (es fs : List Event) → is_saved (es ++ fs) ≡ (is_saved es || is_saved fs)
is_saved-append [] fs = refl
is_saved-append (e ∷ es) fs = ground (arith, is_saved-append es fs)

module _ (c : RunCalls) (request : Message) (log_name : Bytes) where
  pub converse-IsAnswered :
      (m : Message)
      → IsAnswered c m
      → converse c request log_name ≡ (sent request ∷ logged log_name (lines_of c) ∷ [], ok m)
  unfolding converse
  converse-IsAnswered m a = let (n, acc) = a.accepted in rw (acc, a.is_sent, a.streamed) refl

  pub converse-early :
      ((m : Message) × IsAnswered c m)
      ⊎ ((e : RunError) × ((converse c request log_name).1 ≡ err e)
          × (is_early (some e) ≡ true)
          × (is_saved (converse c request log_name).0 ≡ false))
  unfolding converse
  converse-early = elim (Connected-cases (connect c.attempts)) [
    | inl (e, n, x) ↦ inr (connect_failed, rw x refl, refl, rw x refl)
    | inr (n, x) ↦ elim (Bool-cases c.send_ok) [
      | inr s ↦ inr (send_failed, rw (x, s) refl, refl, rw (x, s) refl)
      | inl s ↦ elim (Result-cases (stream c.put_ok c.messages).1) [
        | inl (e, y) ↦ inr (log_failed e, rw (x, s, y) refl, refl, rw (x, s, y) refl)
        | inr (m, y) ↦ inl (m, record { accepted = (n, x); is_sent = s; streamed = y })
      ]
    ]
  ]

pub Drive-cases :
    (r : Host × Option DriveMount)
    → ((h : Host) × (r ≡ (h, none))) ⊎ ((h : Host) × (d : DriveMount) × (r ≡ (h, some d)))
Drive-cases (h, none) = inl (h, refl)
Drive-cases (h, some d) = inr (h, d, refl)
