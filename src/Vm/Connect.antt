-- ===== src/Vm/Connect.antt =====
-- Connect of internal/vm/vm/vm.go: dialling the agent's vsock port until the handshake succeeds.
use mathlib.Core.Path.{subst}
use native.Mathlib.Decide.{dec_lt}
use oblak.Prelude.{
  ◌⊎◌, refl, if◌then◌else◌, ℕ, zero, suc, ◌+◌, ◌≡◌, Bool, true, false, not, ◌&&◌, Bool-cases, ◌≤◌,
  ◌<◌, sym, ◌∙◌, ◌↔◌, inl, inr, arith,
}
use oblak.Text.{Bytes, codes, has_prefix}

abbrev pub connect_retries : ℕ
connect_retries = 20

-- What one attempt meets: the dial fails; the CONNECT line cannot be written; or it is answered by a
-- line (empty where nothing can be read). `close_ok` says whether the connection closes cleanly.
pub data Attempt : Type 0 where
  dial_failed : Attempt
  write_failed : Bool → Attempt
  answered : Bytes → Bool → Attempt

pub data ConnectError : Type 0 where
  close_failed gave_up : ConnectError

-- `connected n` is the connection of attempt `n`; a refusal counts the attempts that were made.
pub data Connected : Type 0 where
  connected : ℕ → Connected
  refused : ConnectError → ℕ → Connected

abbrev closing : Bool → ℕ → Connected → Connected
closing close_ok n rest = if close_ok then rest else refused close_failed (n + 1)

-- The loop, with the attempts left, the number of this attempt and what each attempt meets.
unfoldable pub connect_loop : ℕ → ℕ → (ℕ → Attempt) → Connected
unfolding has_prefix
connect_loop zero n attempt = refused gave_up n
connect_loop (suc left) n attempt =
    let rest = connect_loop left (n + 1) attempt in
    elim (attempt n) [
      | dial_failed ↦ rest
      | write_failed close_ok ↦ closing close_ok n rest
      | answered ack close_ok ↦
          if has_prefix ack (codes "OK ") then connected n else closing close_ok n rest
    ]

unfoldable pub connect : (ℕ → Attempt) → Connected
unfolding connect_loop
connect attempt = connect_loop connect_retries 0 attempt

-- The attempt ends the loop: with a connection, or with an error of closing.
abbrev pub is_accepted : Attempt → Bool
is_accepted (answered ack close_ok) = has_prefix ack (codes "OK ")
is_accepted _ = false

abbrev pub is_retried : Attempt → Bool
is_retried dial_failed = true
is_retried (write_failed close_ok) = close_ok
is_retried (answered ack close_ok) = not (has_prefix ack (codes "OK ")) && close_ok

connect_step :
    (left n : ℕ) (attempt : ℕ → Attempt)
    → connect_loop (suc left) n attempt ≡ (
        if is_accepted (attempt n)
        then connected n
        else if is_retried (attempt n)
        then connect_loop left (n + 1) attempt
        else refused close_failed (n + 1))
unfolding connect_loop
connect_step left n attempt = ground arith

accepted-not-retried : (a : Attempt) → is_accepted a ≡ true → is_retried a ≡ false
accepted-not-retried dial_failed h = cc
accepted-not-retried (write_failed c) h = cc
accepted-not-retried (answered ack c) h = rw h

-- Attempt `k` is the first, from `n` on, that is not retried, and it is accepted.
pub record FirstAccepted (attempt : ℕ → Attempt) (n k : ℕ) : Type 0 where
  pub from : n ≤ k
  pub accepted : is_accepted (attempt k) ≡ true
  pub earlier : (i : ℕ) → n ≤ i → i < k → is_retried (attempt i) ≡ true

loop_sound :
    (left n k : ℕ) (attempt : ℕ → Attempt)
    → connect_loop left n attempt ≡ connected k
    → FirstAccepted attempt n k × (k < n + left)
loop_sound zero n k attempt h = unfold connect_loop in cc h
loop_sound (suc left) n k attempt h =
    let step = sym (connect_step left n attempt) ∙ h in
    elim (Bool-cases (is_accepted (attempt n))) [
      | inl a ↦
          let e : n ≡ k = ground arith in
          (
            record {
              from = omega arith;
              accepted = subst (λ j. is_accepted (attempt j) ≡ true) e a;
              earlier = λ i lo hi. absurd (omega arith);
            },
            omega arith,
          )
      | inr a ↦ elim (Bool-cases (is_retried (attempt n))) [
        | inl r ↦
            let (first, below) = loop_sound left (n + 1) k attempt (ground arith) in
            (
              record {
                from = omega (arith, first.from);
                accepted = first.accepted;
                earlier = λ i lo hi. elim (dec_lt n i) [
                  | yes later ↦ first.earlier i (omega arith) hi
                  | no now ↦
                      let e : n ≡ i = omega arith in subst (λ j. is_retried (attempt j) ≡ true) e r
                ];
              },
              omega (arith, below),
            )
        | inr r ↦ absurd (ground arith)
      ]
    ]

loop_complete :
    (left n k : ℕ) (attempt : ℕ → Attempt)
    → FirstAccepted attempt n k
    → k < n + left
    → connect_loop left n attempt ≡ connected k
loop_complete zero n k attempt f lt = absurd (omega (arith, f.from))
loop_complete (suc left) n k attempt f lt = elim (dec_lt n k) [
  | yes later ↦
      let ih =
        loop_complete left (n + 1) k attempt
          (record {
            from = omega arith;
            accepted = f.accepted;
            earlier = λ i lo hi. f.earlier i (omega arith) hi;
          })
          (omega arith) in
      let r = f.earlier n (omega arith) later in
      connect_step left n attempt ∙ ground (arith, accepted-not-retried (attempt n))
  | no now ↦
      let e : k ≡ n = omega (arith, f.from) in
      let a = subst (λ j. is_accepted (attempt j) ≡ true) e f.accepted in
      connect_step left n attempt ∙ ground arith
]

-- `Connect` returns the connection of attempt `k` exactly when `k` is below 20, the agent accepts
-- that attempt with an OK line, and every earlier attempt failed and closed cleanly.
pub connect_iff :
    (attempt : ℕ → Attempt) (k : ℕ)
    → (connect attempt ≡ connected k) ↔ (FirstAccepted attempt 0 k × (k < connect_retries))
unfolding connect
connect_iff attempt k = (
  λ h. let (f, lt) = loop_sound connect_retries 0 k attempt h in (f, omega arith),
  λ p. loop_complete connect_retries 0 k attempt p.0 (omega arith),
)

-- To split on the result of `Connect` and keep the equation.
pub Connected-cases :
    (r : Connected)
    → ((e : ConnectError) × (n : ℕ) × (r ≡ refused e n)) ⊎ ((n : ℕ) × (r ≡ connected n))
Connected-cases (connected n) = inr (n, refl)
Connected-cases (refused e n) = inl (e, n, refl)
