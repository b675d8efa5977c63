-- ===== src/Vm/Service/Execution.antt =====
-- The status that an execution leaves.
use mathlib.Core.Path.{subst}
use oblak.Prelude.{
  ok, ℕ, ◌≡◌, refl, sym, ap, ◌∙◌, Bool, true, false, Option, none, some, ◌++◌, arith,
}
use oblak.Text.{Bytes}
use oblak.Sql.{Uuid, IsKeyed}
use oblak.Invocation
use oblak.Invocation.{Status, Invocation, update_invocation_status_if}
use oblak.Invocation.Laws as Laws
use oblak.Invocation.Laws.{has_status, status-update, status-update_finished}
use oblak.Vm.Runner
use oblak.Vm.Runner.{RunError}
use oblak.Vm.Service.{
  execute, ExecuteMessage, ServiceError, run_failed, World, ServiceCalls, ran, settle_execute,
  execute_with,
}
use oblak.Vm.Service.Outcomes.{IsUp}

abbrev pub status_executed : Option RunError → Invocation.Status
status_executed none = Invocation.Status.done
status_executed (some _) = Invocation.Status.pending

abbrev pub reported_executed : Option RunError → Option ServiceError
reported_executed none = none
reported_executed (some e) = some (run_failed e)

module _ (id : Uuid) (s : Invocation.Status) where
  -- What Execute leaves behind a run that ends with `e`.
  abbrev pub Executed : Option RunError → World → World × Option ServiceError → Type 0
  Executed e w r =
      (Invocation.status_of id r.0.invocations ≡ some (status_executed e))
      × (r.1 ≡ reported_executed e)
      × (r.0.events ≡ w.events)

  settle_execute-Executed :
      (log_name : Bytes) (end_time : ℕ) (e : Option RunError) (w : World)
      → Invocation.status_of id w.invocations ≡ some s
      → Executed e w (settle_execute true log_name end_time id e w)
  settle_execute-Executed log_name end_time none w h = (
    ground (
      arith,
      Laws.status-update_finished id w.invocations Invocation.Status.done log_name end_time id,
    ),
    refl,
    refl,
  )
  settle_execute-Executed log_name end_time (some e) w h =
      (ground (arith, Laws.status-update id w.invocations Invocation.Status.pending id), refl, refl)

execute-claim :
    (c : ServiceCalls) (m : ExecuteMessage) (w : World) (b : Bool)
    → c.claim_up ≡ true
    → let (t, claimed) =
        update_invocation_status_if true m.invocation_id Invocation.Status.pending
          Invocation.Status.executing w.invocations in
      claimed ≡ ok b → execute c m w ≡ execute_with c m (ok b) (record w { invocations = t })
unfolding execute
execute-claim c m w b up e =
    let set = λ (u : Bool).
      update_invocation_status_if u m.invocation_id Invocation.Status.pending
        Invocation.Status.executing w.invocations in
    ap (λ u. execute_with c m (set u).1 (record w { invocations = (set u).0 })) up
    ∙ ap (λ x. execute_with c m x (record w { invocations = (set true).0 })) e

-- Where the ids of the invocations are distinct and the database executes the statements: an execute
-- message for an invocation that is not PENDING is done with, without a run, and changes no status. One
-- for a PENDING invocation runs a machine, and the invocation is DONE where the run had no error, and
-- PENDING again, with the error reported, where it had one.
pub execute_lem :
    (c : ServiceCalls) (m : ExecuteMessage) (w : World)
    → IsKeyed Invocation.key w.invocations
    → IsUp c
    → let (w', e) = execute c m w in
      let (host, events, failure) = Runner.execute c.run c.log_name m.payload w.host in
      let id = m.invocation_id in
      (has_status Invocation.Status.pending (Invocation.status_of id w.invocations) ≡ false
        → (e ≡ none)
          × (w'.events ≡ w.events)
          × (w'.host ≡ w.host)
          × ((j : Uuid)
              → Invocation.status_of j w'.invocations ≡ Invocation.status_of j w.invocations))
      × (has_status Invocation.Status.pending (Invocation.status_of id w.invocations) ≡ true
          → (Invocation.status_of id w'.invocations ≡ some (status_executed failure))
            × (e ≡ reported_executed failure)
            × (w'.events ≡ w.events ++ events))
execute_lem c m w k up =
    let t = w.invocations in
    let id = m.invocation_id in
    let from = Invocation.Status.pending in
    let to = Invocation.Status.executing in
    let claim = (Laws.update_invocation_status_if_lem id t from to k).0 in
    (
      λ h.
          subst
            (λ (r : World × Option ServiceError).
              (r.1 ≡ none)
              × (r.0.events ≡ w.events)
              × (r.0.host ≡ w.host)
              × ((j : Uuid) → Invocation.status_of j r.0.invocations ≡ Invocation.status_of j t))
            (sym (execute-claim c m w false up.0 (claim ∙ ap ok h)))
            (refl, refl, refl, Laws.unclaimed id t from to h),
      λ h.
          let r = Runner.execute c.run c.log_name m.payload w.host in
          let claimed : World = record w {
            invocations = (update_invocation_status_if true id from to t).0;
          } in
          let run = execute-claim c m w true up.0 (claim ∙ ap ok h) in
          let settled =
            settle_execute-Executed id to c.log_name c.end_time r.2 (ran r claimed)
              (Laws.claimed_status id t from to h) in
          subst (Executed id to r.2 (ran r claimed))
            (sym
              (run ∙ ap (λ u. settle_execute u c.log_name c.end_time id r.2 (ran r claimed)) up.1))
            settled,
    )
