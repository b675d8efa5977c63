-- ===== src/Vm/Runner/Success.antt =====
-- When the preparation of an environment succeeds, and what it has done by then.
use oblak.Prelude.{
  Bool-cases, ◌≡◌, refl, ap, ◌∙◌, ◌↔◌, ◌⊎◌, inl, inr, true, false, Option, none, some, List, [],
  ◌∷◌, ◌++◌,
}
use oblak.Text.{Bytes}
use oblak.AgentProto.{Message, build}
use oblak.Vm.Drive.{Host, DriveMount, root_drive, minio_upload_drive, archive_drive}
use oblak.Vm.Runner.{
  with_vm_log, RunError, start_failed, user_error, Event, started, sent, logged, stopped, cancelled,
  saved, cleaned, RunCalls, clean_up_drives, aborted, converse, concluded, start_and_run,
  run_machine, finish_build, prepare_environment,
}
use oblak.Vm.Runner.Build.{
  IsZeroExit, is_successful_iff, is_successful-not, finish_build-saves, finish_build-refuses,
  finish_build-cases, is_fault, early-is_fault,
}
use oblak.Vm.Runner.Answers.{
  IsAnswered, lines_of, is_early, is_saved, is_saved-append, converse-IsAnswered, converse-early,
  Drive-cases,
}

-- The drives of a preparation are made and its machine starts.
pub record IsBooted (c : RunCalls) (h : Host) : Type 0 where
  pub code_host : Host
  pub code : DriveMount
  pub code_made : archive_drive c.code h ≡ (code_host, some code)
  pub deps_host : Host
  pub deps : DriveMount
  pub deps_made : minio_upload_drive c.deps code_host ≡ (deps_host, some deps)
  pub starts : c.start_ok ≡ true

-- What a preparation does that comes to the final message `m`.
abbrev prepared : RunCalls → Bytes → Bytes → Message → List Event × Option RunError
prepared c drive_name log_name m =
    let (finish, e) = finish_build c drive_name m in
    (started ∷ sent build ∷ logged log_name (lines_of c) ∷ stopped ∷ finish ++ cleaned ∷ [], e)

run_machine-started :
    (c : RunCalls) (request : Message) (log_name : Bytes)
    (finish : Message → List Event × Option RunError) (ds : List DriveMount) (h : Host)
    → c.start_ok ≡ true
    → run_machine c request log_name finish ds h
      ≡ concluded finish (converse c request log_name) (clean_up_drives ds (with_vm_log c h))
unfolding run_machine
run_machine-started c request log_name finish ds h s =
    ap (λ b. start_and_run b finish (converse c request log_name) ds (with_vm_log c h)) s

run_machine-aborted :
    (c : RunCalls) (request : Message) (log_name : Bytes)
    (finish : Message → List Event × Option RunError) (ds : List DriveMount) (h : Host)
    → c.start_ok ≡ false
    → run_machine c request log_name finish ds h ≡ aborted ds start_failed (with_vm_log c h)
unfolding run_machine
run_machine-aborted c request log_name finish ds h s =
    ap (λ b. start_and_run b finish (converse c request log_name) ds (with_vm_log c h)) s

module _ (c : RunCalls) (drive_name log_name : Bytes) (h : Host) where
  prepare-IsBooted :
      (m : Message)
      → IsBooted c h
      → IsAnswered c m
      → let r = prepare_environment c drive_name log_name h in
        (r.1, r.2) ≡ prepared c drive_name log_name m
  unfolding prepare_environment
  prepare-IsBooted m b a =
      rw
        (
          b.code_made,
          b.deps_made,
          run_machine-started c build log_name _ _ _ b.starts,
          converse-IsAnswered c build log_name m a,
        )
        refl

  -- Before the final message nothing is saved and the error is an early one.
  prepare-early :
      ((m : Message) × IsBooted c h × IsAnswered c m)
      ⊎ (let (h', events, e) = prepare_environment c drive_name log_name h in
          (is_early e ≡ true) × (is_saved events ≡ false))
  unfolding prepare_environment
  prepare-early = elim (Drive-cases (archive_drive c.code h)) [
    | inl (h1, x) ↦ inr (rw x refl, rw x refl)
    | inr (h1, code, x) ↦ elim (Drive-cases (minio_upload_drive c.deps h1)) [
      | inl (h2, y) ↦ inr (rw (x, y) refl, rw (x, y) refl)
      | inr (h2, deps, y) ↦ elim (Bool-cases c.start_ok) [
        | inr z ↦
            let stop =
              run_machine-aborted c build log_name (finish_build c drive_name)
                (root_drive ∷ code ∷ deps ∷ []) h2 z in
            inr (rw (x, y, stop) refl, rw (x, y, stop) refl)
        | inl z ↦ elim (converse-early c build log_name) [
          | inl (m, a) ↦ inl (
            m,
            record {
              code_host = h1;
              code = code;
              code_made = x;
              deps_host = h2;
              deps = deps;
              deps_made = y;
              starts = z;
            },
            a,
          )
          | inr (e, w, early, unsaved) ↦
              let (es, r) = converse c build log_name in
              let go =
                run_machine-started c build log_name (finish_build c drive_name)
                  (root_drive ∷ code ∷ deps ∷ []) h2 z in
              inr (
                rw (x, y, go, w) early,
                rw (x, y, go, w) (is_saved-append es (cleaned ∷ cancelled ∷ []) ∙ rw unsaved refl),
              )
        ]
      ]
    ]
  ]

module _ (c : RunCalls) (name log_name : Bytes) (h : Host) where
  abbrev Succeeds : Type 0
  Succeeds = IsBooted c h × ((m : Message) × IsAnswered c m × IsZeroExit m) × (c.save_ok ≡ true)

  abbrev Refuses : Type 0
  Refuses = IsBooted c h × ((m : Message) × IsAnswered c m × (¬ IsZeroExit m))

  abbrev success_events : List Event
  success_events =
      started ∷ sent build ∷ logged log_name (lines_of c) ∷ stopped ∷ saved name ∷ cleaned ∷ []

  prepare-succeeds :
      Succeeds
      → let r = prepare_environment c name log_name h in (r.1 ≡ success_events) × (r.2 ≡ none)
  prepare-succeeds (b, (m, a, s), k) =
      let e = prepare-IsBooted c name log_name h m b a in
      let f = finish_build-saves c name m ((is_successful_iff m).1 s) k in
      (ap (λ x. x.0) e ∙ rw f refl, ap (λ x. x.1) e ∙ rw f refl)

  prepare-refuses :
      Refuses
      → let r = prepare_environment c name log_name h in
        (is_saved r.1 ≡ false) × (r.2 ≡ some user_error)
  prepare-refuses (b, (m, a, s)) =
      let e = prepare-IsBooted c name log_name h m b a in
      let f = finish_build-refuses c name m (is_successful-not m s) in
      (ap (λ x. is_saved x.0) e ∙ rw f refl, ap (λ x. x.1) e ∙ rw f refl)

  prepare-cases :
      Succeeds
      ⊎ Refuses
      ⊎ (let r = prepare_environment c name log_name h in
          (is_saved r.1 ≡ false) × (is_fault r.2 ≡ true))
  prepare-cases = elim (prepare-early c name log_name h) [
    | inr (early, unsaved) ↦ inr (inr (unsaved, early-is_fault _ early))
    | inl (m, b, a) ↦ elim (finish_build-cases c name m) [
      | inl (s, k) ↦ inl (b, (m, a, (is_successful_iff m).0 s), k)
      | inr (inl s) ↦ inr (inl (b, (m, a, λ z. cc (s, (is_successful_iff m).1 z))))
      | inr (inr f) ↦
          let e = prepare-IsBooted c name log_name h m b a in
          inr (inr (ap (λ x. is_saved x.0) e ∙ rw f refl, ap (λ x. is_fault x.1) e ∙ rw f refl))
    ]
  ]

-- A preparation has no error exactly when its drives are made, the machine starts, the agent answers
-- with a final message, that is `done` with the exit code 0, and the drive of the packages is uploaded.
-- It reports a user error exactly when the agent's final message is another one. The drive is uploaded
-- only by a preparation without an error, and that one has done so behind the machine's stop and before
-- the drives' removal.
pub prepare_environment_lem :
    (c : RunCalls) (drive_name log_name : Bytes) (h : Host)
    → let (h', events, e) = prepare_environment c drive_name log_name h in
      ((e ≡ none)
        ↔ (IsBooted c h × ((m : Message) × IsAnswered c m × IsZeroExit m) × (c.save_ok ≡ true)))
      × ((e ≡ some user_error)
          ↔ (IsBooted c h × ((m : Message) × IsAnswered c m × (¬ IsZeroExit m))))
      × (is_saved events ≡ true → e ≡ none)
      × (e ≡ none
          → events
            ≡ started
              ∷ sent build
              ∷ logged log_name (lines_of c)
              ∷ stopped
              ∷ saved drive_name
              ∷ cleaned
              ∷ [])
prepare_environment_lem c name log_name h =
    let r = prepare_environment c name log_name h in
    let succeeds = prepare-succeeds c name log_name h in
    let refuses = prepare-refuses c name log_name h in
    elim (prepare-cases c name log_name h) [
      | inl s ↦
          let (es, e) = succeeds s in
          (
            (λ _. s, λ _. e),
            (λ (x : r.2 ≡ some user_error). absurd (cc (x, e)), λ x. (refuses x).1),
            λ _. e,
            λ _. es,
          )
      | inr (inl x) ↦
          let (unsaved, e) = refuses x in
          (
            (λ (y : r.2 ≡ none). absurd (cc (y, e)), λ s. (succeeds s).1),
            (λ _. x, λ _. e),
            λ y. absurd (cc (y, unsaved)),
            λ (y : r.2 ≡ none). absurd (cc (y, e)),
          )
      | inr (inr (unsaved, f)) ↦ (
        (λ (y : r.2 ≡ none). absurd (cc (ap is_fault y, f)), λ s. (succeeds s).1),
        (λ (y : r.2 ≡ some user_error). absurd (cc (ap is_fault y, f)), λ x. (refuses x).1),
        λ y. absurd (cc (y, unsaved)),
        λ (y : r.2 ≡ none). absurd (cc (ap is_fault y, f)),
      )
    ]
