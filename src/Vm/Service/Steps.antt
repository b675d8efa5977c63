-- ===== src/Vm/Service/Steps.antt =====
-- A call of Execute as the steps of one worker.
use mathlib.Core.Path.{subst}
use mathlib.Core.Path.{fun_ext, subst₂}
use oblak.Prelude.{
  Bool-cases, Result, ok, Result-cases, ℕ, ◌≤◌, ◌≡◌, ◌≢◌, ◌⊎◌, ◌++◌, refl, sym, ap, ◌∙◌, inl, inr,
  Bool, true, Option, none, some, arith,
}
use oblak.Text.{Bytes}
use oblak.Sql.{DbError, Uuid}
use oblak.Invocation.{Invocations}
use oblak.Vm.Runner
use oblak.Vm.Runner.{RunError}
use oblak.Vm.Service.{
  World, ServiceCalls, ExecuteMessage, execute, execute_with, settle_execute, ran,
}
use oblak.Vm.Service.Workers.{
  Shared, claim, settle, one_more, one_less, start, skip, finish, Reach, here, next,
}

-- The log that a run leaves, by its error.
abbrev log_of : Bytes → ℕ → Option RunError → Option (Bytes × ℕ)
log_of log_name end_time none = some (log_name, end_time)
log_of log_name end_time (some _) = none

settle_execute-settle :
    (up : Bool) (log_name : Bytes) (end_time : ℕ) (id : Uuid) (e : Option RunError) (w : World)
    → (settle_execute up log_name end_time id e w).0.invocations
      ≡ settle up (log_of log_name end_time e) id w.invocations
settle_execute-settle up log_name end_time id none w = refl
settle_execute-settle up log_name end_time id (some e) w = refl

less_more :
    (id : Uuid) (holding : Uuid → ℕ) (j : Uuid) → one_less id (one_more id holding) j ≡ holding j
less_more id holding j = ground arith

abbrev shared : Invocations → (Uuid → ℕ) → Shared
shared t holding = record { invocations = t; holding = holding }

execute-steps :
    (c : ServiceCalls) (m : ExecuteMessage) (w : World) (holding : Uuid → ℕ)
    → Reach (shared w.invocations holding) (shared (execute c m w).0.invocations holding)
unfolding execute
execute-steps c m w holding =
    let id = m.invocation_id in
    let claimed = claim c.claim_up id w.invocations in
    let w1 : World = record w { invocations = claimed.0 } in
    let behind = λ (r : Result DbError Bool). (execute_with c m r w1).0.invocations in
    let from = shared w.invocations holding in
    elim (Result-cases claimed.1) [
      | inl (e, x) ↦
          subst (λ t. Reach from (shared t holding)) (sym (ap behind x))
            (next here (skip c.claim_up id (λ y. cc (x, y))))
      | inr (b, x) ↦ elim (Bool-cases b) [
        | inr no_claim ↦
            subst (λ t. Reach from (shared t holding)) (sym (ap behind (x ∙ ap ok no_claim)))
              (next here (skip c.claim_up id (λ y. cc (x, y, no_claim))))
        | inl yes_claim ↦
            let won = x ∙ ap ok yes_claim in
            let r = Runner.execute c.run c.log_name m.payload w.host in
            let logged = log_of c.log_name c.end_time r.2 in
            let ends : behind (ok true) ≡ settle c.settle_up logged id claimed.0 =
              settle_execute-settle c.settle_up c.log_name c.end_time id r.2 (ran r w1) in
            let busy : 1 ≤ one_more id holding id = ground arith in
            let begun : Reach from (shared claimed.0 (one_more id holding)) =
              next here (start {holding = holding} c.claim_up id won) in
            let steps = next begun (finish c.settle_up id logged busy) in
            let back : one_less id (one_more id holding) ≡ holding =
              fun_ext (less_more id holding) in
            subst₂ (λ t free. Reach from (shared t free)) (sym (ap behind won ∙ ends)) back steps
      ]
    ]

-- What Execute leaves where it does not get the claim: the table of the claim, and no run.
abbrev pub IsSkipped : ServiceCalls → ExecuteMessage → World → World → Type 0
IsSkipped c m w w' =
    let claimed = claim c.claim_up m.invocation_id w.invocations in
    (claimed.1 ≢ ok true)
    × (w'.invocations ≡ claimed.0)
    × (w'.events ≡ w.events)
    × (w'.host ≡ w.host)

-- And where it does: one run, and the table with the log where that had no error, and reset otherwise.
abbrev pub IsRun : ServiceCalls → ExecuteMessage → World → World → Type 0
IsRun c m w w' =
    let claimed = claim c.claim_up m.invocation_id w.invocations in
    let r = Runner.execute c.run c.log_name m.payload w.host in
    (claimed.1 ≡ ok true)
    × (w'.invocations
        ≡ settle c.settle_up (log_of c.log_name c.end_time r.2) m.invocation_id claimed.0)
    × (w'.events ≡ w.events ++ r.1)
    × (w'.host ≡ r.0)

settled-IsRun :
    (c : ServiceCalls) (m : ExecuteMessage) (w : World)
    → (claim c.claim_up m.invocation_id w.invocations).1 ≡ ok true
    → let claimed = claim c.claim_up m.invocation_id w.invocations in
      IsRun c m w (execute_with c m (ok true) (record w { invocations = claimed.0 })).0
settled-IsRun c m w won = let r = Runner.execute c.run c.log_name m.payload w.host in go r.2 refl
  where
    go :
        (e : Option RunError)
        → (Runner.execute c.run c.log_name m.payload w.host).2 ≡ e
        → let claimed = claim c.claim_up m.invocation_id w.invocations in
          IsRun c m w (execute_with c m (ok true) (record w { invocations = claimed.0 })).0
    go none e = rw e (won, refl, refl, refl)
    go (some x) e = rw e (won, refl, refl, refl)

-- Whatever Execute meets, its statements are steps of the workers, from the table that it finds to the
-- table that it leaves, behind which it holds no more invocations than before. Where it does not get the
-- claim, nothing is run; where it does, one run follows, and the invocation is settled with its log
-- where the run had no error, and without one otherwise.
pub execute-Reach :
    (c : ServiceCalls) (m : ExecuteMessage) (w : World) (holding : Uuid → ℕ)
    → let w' = (execute c m w).0 in
      Reach (shared w.invocations holding) (shared w'.invocations holding)
      × (IsSkipped c m w w' ⊎ IsRun c m w w')
unfolding execute
execute-Reach c m w holding =
    let claimed = claim c.claim_up m.invocation_id w.invocations in
    let w1 : World = record w { invocations = claimed.0 } in
    let Q = λ (r : Result DbError Bool).
      let w' = (execute_with c m r w1).0 in IsSkipped c m w w' ⊎ IsRun c m w w' in
    (
      execute-steps c m w holding,
      elim (Result-cases claimed.1) [
        | inl (e, x) ↦ subst Q (sym x) (inl (λ y. cc (x, y), refl, refl, refl))
        | inr (b, x) ↦ elim (Bool-cases b) [
          | inr lost ↦ subst Q (sym (x ∙ ap ok lost)) (inl (λ y. cc (x, y, lost), refl, refl, refl))
          | inl won ↦ subst Q (sym (x ∙ ap ok won)) (inr (settled-IsRun c m w (x ∙ ap ok won)))
        ]
      ],
    )
