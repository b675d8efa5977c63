-- ===== src/Vm/Runner/Build.antt =====
-- The end of a build: its final message against the upload and the user's error.
use oblak.Prelude.{
  if_false, if_true, Bool-cases, zero, suc, ◌≡◌, refl, ap, ◌∙◌, ◌↔◌, ◌⊎◌, inl, inr, Bool, true,
  false, not, Option, none, some, [], ◌∷◌, arith,
}
use oblak.Text.{Bytes}
use oblak.AgentProto.{
  ℤ, pos, negsuc, MessageType, type_build, type_exec, type_output, type_done, type_error, other,
  Message,
}
use oblak.Vm.Runner.{
  RunError, code_drive_failed, deps_drive_failed, tmp_drive_failed, start_failed, connect_failed,
  send_failed, save_failed, log_failed, user_error, saved, RunCalls, zero_code, is_done,
  is_successful, finish_build,
}
use oblak.Vm.Runner.Answers.{is_early}

-- The agent is done with the exit code 0.
abbrev pub IsZeroExit : Message → Type 0
IsZeroExit m = (m.type ≡ type_done) × (m.exit_code ≡ some (pos 0))

is_done_iff : (t : MessageType) → (is_done t ≡ true) ↔ (t ≡ type_done)
is_done_iff type_done = (λ _. refl, λ _. refl)
is_done_iff type_build = (λ h. cc, λ h. cc)
is_done_iff type_exec = (λ h. cc, λ h. cc)
is_done_iff type_output = (λ h. cc, λ h. cc)
is_done_iff type_error = (λ h. cc, λ h. cc)
is_done_iff other = (λ h. cc, λ h. cc)

zero_code_iff : (o : Option ℤ) → (zero_code o ≡ true) ↔ (o ≡ some (pos 0))
zero_code_iff none = (λ h. cc, λ h. cc)
zero_code_iff (some (pos zero)) = (λ _. refl, λ _. refl)
zero_code_iff (some (pos (suc n))) = (λ h. cc, λ h. cc h)
zero_code_iff (some (negsuc n)) = (λ h. cc, λ h. cc)

pub is_successful_iff : (m : Message) → (is_successful m ≡ true) ↔ IsZeroExit m
is_successful_iff m = ground (arith, is_done_iff m.type, zero_code_iff m.exit_code)

pub is_successful-not : (m : Message) → ¬ IsZeroExit m → is_successful m ≡ false
is_successful-not m n = elim (Bool-cases (is_successful m)) [
  | inl s ↦ absurd (n ((is_successful_iff m).0 s))
  | inr s ↦ s
]

module _ (c : RunCalls) (name : Bytes) (m : Message) where
  pub finish_build-saves :
      is_successful m ≡ true → c.save_ok ≡ true → finish_build c name m ≡ (saved name ∷ [], none)
  finish_build-saves s k = if_false _ _ (ap not s) ∙ if_true _ _ k

  pub finish_build-refuses : is_successful m ≡ false → finish_build c name m ≡ ([], some user_error)
  finish_build-refuses s = if_true _ _ (ap not s)

  -- The three ends of a build.
  pub finish_build-cases :
      ((is_successful m ≡ true) × (c.save_ok ≡ true))
      ⊎ (is_successful m ≡ false)
      ⊎ (finish_build c name m ≡ ([], some save_failed))
  finish_build-cases = elim (Bool-cases (is_successful m)) [
    | inr s ↦ inr (inl s)
    | inl s ↦ elim (Bool-cases c.save_ok) [
      | inl k ↦ inl (s, k)
      | inr k ↦ inr (inr (if_false _ _ (ap not s) ∙ if_false _ _ k))
    ]
  ]

-- Neither a success nor the user's error.
abbrev pub is_fault : Option RunError → Bool
is_fault none = false
is_fault (some user_error) = false
is_fault (some _) = true

pub early-is_fault : (e : Option RunError) → is_early e ≡ true → is_fault e ≡ true
early-is_fault none h = cc
early-is_fault (some user_error) h = cc
early-is_fault (some save_failed) h = cc
early-is_fault (some (log_failed e)) h = refl
early-is_fault (some code_drive_failed) h = refl
early-is_fault (some deps_drive_failed) h = refl
early-is_fault (some tmp_drive_failed) h = refl
early-is_fault (some start_failed) h = refl
early-is_fault (some connect_failed) h = refl
early-is_fault (some send_failed) h = refl
