-- ===== src/Vm/Service/Outcomes.antt =====
-- The status that a build or an execution leaves, and the effects it has had by then.
use mathlib.Core.Path.{subst}
use oblak.Prelude.{
  if◌then◌else◌, if_both, Bool-cases, ok, ◌≡◌, refl, sym, ap, ◌∙◌, inl, inr, Bool, true, false,
  Option, none, some, [], ◌∷◌, ◌++◌, arith,
}
use oblak.Sql.{DbError, Uuid, IsKeyed}
use oblak.Function
use oblak.Function.{
  Status, Function, Functions, update_function_status, update_function_status_if,
  update_function_status_and_drive_path,
}
use oblak.Function.Laws as FunctionLaws
use oblak.Vm.Runner.{RunError, started, sent, logged, stopped, saved, cleaned, prepare_environment}
use oblak.AgentProto.{Message, build, done}
use oblak.Vm.Runner.Answers.{IsAnswered, lines_of}
use oblak.Vm.Runner.Build.{IsZeroExit}
use oblak.Vm.Runner.Success.{IsBooted, prepare_environment_lem}
use oblak.Vm.Service.{
  BuildMessage, ServiceError, store_failed, run_failed, World, ServiceCalls, ran, is_user_error,
  settle_prepare, prepare_with, prepare,
}
use oblak.Text.{Bytes}
use oblak.Function.Laws.{has_status, status-update, status-update_drive}

-- The status behind a run of PrepareEnvironment, and what Prepare returns.
abbrev pub status_prepared : Option RunError → Function.Status
status_prepared none = Function.Status.ready
status_prepared (some e) =
    if is_user_error e then Function.Status.failed else Function.Status.verified

abbrev pub reported_prepared : Option RunError → Option ServiceError
reported_prepared none = none
reported_prepared (some e) = if is_user_error e then none else some (run_failed e)

-- The database executes both statements of a call.
abbrev pub IsUp : ServiceCalls → Type 0
IsUp c = (c.claim_up ≡ true) × (c.settle_up ≡ true)

module _ (id : Uuid) (s : Function.Status) where
  set_function-status :
      (to : Function.Status) (t : Functions)
      → Function.status_of id t ≡ some s
      → Function.status_of id (update_function_status true id to t).0 ≡ some to
  set_function-status to t h = ground (arith, FunctionLaws.status-update id t to id)

  set_ready-status :
      (path : Bytes) (t : Functions)
      → Function.status_of id t ≡ some s
      → let r = update_function_status_and_drive_path true id Function.Status.ready path t in
        (Function.status_of id r.0 ≡ some Function.Status.ready) × (r.1 ≡ none)
  unfolding update_function_status_and_drive_path
  set_ready-status path t h =
      (ground (arith, FunctionLaws.status-update_drive id t Function.Status.ready path id), refl)

  -- What Prepare leaves behind a run that ends with `e`.
  abbrev pub Prepared : Option RunError → World → World × Option ServiceError → Type 0
  Prepared e w r =
      (Function.status_of id r.0.functions ≡ some (status_prepared e))
      × (r.1 ≡ reported_prepared e)
      × (r.0.events ≡ w.events)

  settle_prepare-Prepared :
      (drive_name : Bytes) (e : Option RunError) (w : World)
      → Function.status_of id w.functions ≡ some s
      → Prepared e w (settle_prepare true drive_name id e w)
  settle_prepare-Prepared drive_name none w h =
      let (st, e) = set_ready-status drive_name w.functions h in
      (
        st,
        ap (λ (x : Option DbError). elim x [ none ↦ none | some y ↦ some (store_failed y) ]) e,
        refl,
      )
  settle_prepare-Prepared drive_name (some e) w h = elim (Bool-cases (is_user_error e)) [
    | inl x ↦ rw x (set_function-status Function.Status.failed w.functions h, refl, refl)
    | inr x ↦ rw x (set_function-status Function.Status.verified w.functions h, refl, refl)
  ]

prepare-claim :
    (c : ServiceCalls) (m : BuildMessage) (w : World) (b : Bool)
    → c.claim_up ≡ true
    → let (t, claimed) =
        update_function_status_if true m.function_id Function.Status.verified
          Function.Status.preparing_environment w.functions in
      claimed ≡ ok b
      → prepare c m w ≡ prepare_with c m.function_id (ok b) (record w { functions = t })
unfolding prepare
prepare-claim c m w b up e =
    let set = λ (u : Bool).
      update_function_status_if u m.function_id Function.Status.verified
        Function.Status.preparing_environment w.functions in
    ap (λ u. prepare_with c m.function_id (set u).1 (record w { functions = (set u).0 })) up
    ∙ ap (λ x. prepare_with c m.function_id x (record w { functions = (set true).0 })) e

-- Where the ids of the functions are distinct and the database executes the statements: a build
-- message for a function that is not VERIFIED is done with, without a run, and changes no status. One for a
-- VERIFIED function runs a preparation, and the function is READY where it had no error, FAILED with
-- nothing reported where it was the user's error, and VERIFIED again, with the error reported, where
-- it was any other.
pub prepare_lem :
    (c : ServiceCalls) (m : BuildMessage) (w : World)
    → IsKeyed Function.key w.functions
    → IsUp c
    → let (w', e) = prepare c m w in
      let (host, events, failure) = prepare_environment c.run c.drive_name c.log_name w.host in
      let id = m.function_id in
      (has_status Function.Status.verified (Function.status_of id w.functions) ≡ false
        → (e ≡ none)
          × (w'.events ≡ w.events)
          × (w'.host ≡ w.host)
          × ((j : Uuid) → Function.status_of j w'.functions ≡ Function.status_of j w.functions))
      × (has_status Function.Status.verified (Function.status_of id w.functions) ≡ true
          → (Function.status_of id w'.functions ≡ some (status_prepared failure))
            × (e ≡ reported_prepared failure)
            × (w'.events ≡ w.events ++ events))
prepare_lem c m w k up =
    let t = w.functions in
    let id = m.function_id in
    let from = Function.Status.verified in
    let to = Function.Status.preparing_environment in
    let claim = (FunctionLaws.update_function_status_if_lem id t from to k).0 in
    (
      λ h.
          subst
            (λ (r : World × Option ServiceError).
              (r.1 ≡ none)
              × (r.0.events ≡ w.events)
              × (r.0.host ≡ w.host)
              × ((j : Uuid) → Function.status_of j r.0.functions ≡ Function.status_of j t))
            (sym (prepare-claim c m w false up.0 (claim ∙ ap ok h)))
            (refl, refl, refl, FunctionLaws.unclaimed id t from to h),
      λ h.
          let r = prepare_environment c.run c.drive_name c.log_name w.host in
          let claimed : World = record w {
            functions = (update_function_status_if true id from to t).0;
          } in
          let run = prepare-claim c m w true up.0 (claim ∙ ap ok h) in
          let done =
            settle_prepare-Prepared id to c.drive_name r.2 (ran r claimed)
              (FunctionLaws.claimed_status id t from to h) in
          subst (Prepared id to r.2 (ran r claimed))
            (sym (run ∙ ap (λ u. settle_prepare u c.drive_name id r.2 (ran r claimed)) up.1)) done,
    )

prepared-ready :
    (e : Option RunError) → some (status_prepared e) ≡ some Function.Status.ready → e ≡ none
prepared-ready none h = refl
prepared-ready (some e) h =
    let P = λ (s : Function.Status). (some s ≡ some Function.Status.ready) → some e ≡ none in
    if_both P (is_user_error e) (λ x. cc x) (λ x. cc x) h

-- Where the ids of the functions are distinct and the database executes the statements, a build
-- message that makes a VERIFIED function READY has run a machine that answered `done` with the exit
-- code 0, stopped, and had the drive of its packages uploaded before the drives were removed.
pub prepare_ready :
    (c : ServiceCalls) (m : BuildMessage) (w : World)
    → IsKeyed Function.key w.functions
    → IsUp c
    → has_status Function.Status.verified (Function.status_of m.function_id w.functions) ≡ true
    → Function.status_of m.function_id (prepare c m w).0.functions ≡ some Function.Status.ready
    → IsBooted c.run w.host
      × ((x : Message) × IsAnswered c.run x × IsZeroExit x)
      × ((prepare c m w).0.events
          ≡ w.events
            ++ started
              ∷ sent build
              ∷ logged c.log_name (lines_of c.run)
              ∷ stopped
              ∷ saved c.drive_name
              ∷ cleaned
              ∷ [])
prepare_ready c m w k up v h =
    let r = prepare_environment c.run c.drive_name c.log_name w.host in
    let (status, reported, events) = (prepare_lem c m w k up).1 v in
    let none_failed = prepared-ready r.2 (sym status ∙ h) in
    let (succ, user, saves, done) = prepare_environment_lem c.run c.drive_name c.log_name w.host in
    let (b, a, s) = succ.0 none_failed in
    (b, a, events ∙ ap (λ es. w.events ++ es) (done none_failed))
