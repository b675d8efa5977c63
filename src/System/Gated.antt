-- ===== src/System/Gated.antt =====
-- What is served and what the machines are asked to run has passed the analysis, in every reachable
-- state of the platform.
use mathlib.Core.List.{Memᴰ}
use mathlib.Core.Path.{subst}
use oblak.Prelude.{
  ◌==◌, ==_iff, if_both, Result, ok, err, ℕ, ◌≡◌, refl, sym, ap, ◌∙◌, inl, inr, Bool, true, false,
  Option, none, some, List, ◌∷◌, arith, Bool-cases, ltb, length,
}
use oblak.Text.{Bytes}
use oblak.Sql.{DbError, Uuid}
use oblak.Function
use oblak.Function.{Function, Functions, row, is_status}
use oblak.Analyzer.Orchestrator.{analyze_file}
use oblak.Analyzer.Listener.{Delivery, FunctionMessage, BuildMessage, after_analysis}
use oblak.Analyzer.Listener.Gate.{Cleared, weaken}
use oblak.Analyzer.Listener.Effects.{Assigns, after_analysis-Assigns, after_analysis-Cleared}
use oblak.Vm.Runner.{RunError}
use oblak.Vm.Service
use oblak.Vm.Service.{ExecuteMessage, settle_prepare, is_user_error}
use oblak.Server.Handlers.{Executed, max_payload_size, execute_lambda}
use oblak.Server.Handlers.Runs
use oblak.Server.Handlers.Runs.{execute_lambda-AllNames}
use oblak.System.{
  Platform, empty, analyzer_world, vm_world, claim, analysed_with, claimed_with, requested, Step,
  uploads_file, checks_upload, passes_upload, server_restarts, lands, analyses, analyzer_restarts,
  claims_build, settles_build, fails_build, requests_run, runs, Reach, here, next,
}
use oblak.System.Tables.{
  is_served, IsHarmless, IsHarmless-refl, status-IsHarmless, status_if-IsHarmless, drive-Keeps,
  drive_others,
}
use oblak.System.Sound.{
  Each, Each-nil, Each-cons, Each-append, Each-All, Names, Names-Keeps, IsCleared, IsAnalysed,
  IsSound, empty-IsSound, moved, moved_harmless, with_status-IsSound,
}
use oblak.System.Intake.{uploaded-IsSound, checked-IsSound, passed_on-IsSound}

-- One more delivery that the analyzer has gone through.
analysed-IsSound :
    (s : Platform) (d : Delivery) → IsSound s → IsSound (record s { analysed = d ∷ s.analysed })
analysed-IsSound s d h = record {
  uploads = h.uploads;
  events = h.events;
  messages = h.messages;
  builds = λ b m. ((h.builds b m).0, weaken (h.builds b m).1);
  claimed = λ b m. ((h.claimed b m).0, weaken (h.claimed b m).1);
  served = λ id g at served. weaken (h.served id g at served);
  executions = λ x m. ((h.executions x m).0, weaken (h.executions x m).1);
}

Assigns-IsHarmless :
    (d : Delivery) (m : FunctionMessage) (t t' : Functions) → Assigns d m t t' → IsHarmless t t'
Assigns-IsHarmless d m t t' (inl e) = subst (IsHarmless t) (sym e) (IsHarmless-refl t)
Assigns-IsHarmless d m t t' (inr (to, unready, e)) =
    subst (IsHarmless t) (sym e) (status-IsHarmless m.function_id to t unready d.status_up)

analysed_with-IsSound :
    (s : Platform) (d : Delivery) (m : FunctionMessage)
    → d.payload ≡ some m
    → Memᴰ m s.messages
    → IsSound s
    → IsSound (analysed_with d m (analyze_file d.services d.id_text s.workspace) s)
analysed_with-IsSound s d m decoded sent h =
    let (ws, out) = analyze_file d.services d.id_text s.workspace in
    let w = (after_analysis d m out (analyzer_world s ws)).0 in
    let harmless =
      Assigns-IsHarmless d m s.functions w.functions
        (after_analysis-Assigns d m out (analyzer_world s ws)) in
    let k =
      moved_harmless (record s { analysed = d ∷ s.analysed }) w.functions harmless
        (analysed-IsSound s d h) in
    record {
      uploads = k.uploads;
      events = k.events;
      messages = k.messages;
      builds = λ b among.
          elim (after_analysis-Cleared d s.analysed m s.workspace (analyzer_world s ws) b decoded
            among) [
              | inl old ↦ k.builds b old
              | inr (new, cleared) ↦ (
                subst (λ (x : BuildMessage). Names w.functions x.function_id x.code_object_name)
                    (sym new) (k.messages m sent),
                cleared,
              )
            ];
      claimed = k.claimed;
      served = k.served;
      executions = k.executions;
    }

claim-Each :
    (P : BuildMessage → Type 0) (r : Result DbError Bool) (b : BuildMessage)
    (bs : List BuildMessage)
    → P b
    → Each P bs
    → Each P (claim r b bs)
claim-Each P (err e) b bs h k = k
claim-Each P (ok false) b bs h k = k
claim-Each P (ok true) b bs h k = Each-cons P b bs h k

claimed_with-IsSound :
    (s : Platform) (up : Bool) (b : BuildMessage)
    → Memᴰ b s.builds
    → IsSound s
    → IsSound (
        claimed_with b
          (Function.update_function_status_if up b.function_id Function.verified
            Function.preparing_environment s.functions)
          s)
claimed_with-IsSound s up b among h =
    let id = b.function_id in
    let to = Function.preparing_environment in
    let (t, r) = Function.update_function_status_if up id Function.verified to s.functions in
    let k =
      moved_harmless s t (status_if-IsHarmless id to s.functions refl up Function.verified) h in
    record {
      uploads = k.uploads;
      events = k.events;
      messages = k.messages;
      builds = k.builds;
      claimed = claim-Each (IsCleared t s.analysed) r b s.claimed (k.builds b among) k.claimed;
      served = k.served;
      executions = k.executions;
    }

-- A function that gets its drive was built from its own archive, which has passed.
ready-IsSound :
    (s : Platform) (up : Bool) (drive_name : Bytes) (b : BuildMessage)
    → Memᴰ b s.claimed
    → IsSound s
    → IsSound (record s {
      functions =
          (Function.update_function_status_and_drive_path up b.function_id Function.ready drive_name
            s.functions).0;
    })
ready-IsSound s up drive_name b among h =
    let id = b.function_id in
    let t =
      (Function.update_function_status_and_drive_path up id Function.ready drive_name
        s.functions).0 in
    let keeps = drive-Keeps id Function.ready s.functions up drive_name in
    let (named, cleared) = h.claimed b among in
    let (x, at, same) = Names-Keeps s.functions t id b.code_object_name keeps named in
    moved s t keeps
      (λ j g at' served. elim (Bool-cases (id == j)) [
        | inr other ↦
            h.served j g
              (drive_others id Function.ready s.functions up drive_name j g
                (λ e. absurd (ground (arith, other, e))) at')
              served
        | inl e ↦
            let i : id ≡ j = (==_iff id j).0 e in
            let one : x ≡ g = ground (arith, at, subst (λ k. row k t ≡ some g) (sym i) at') in
            subst (λ k. Cleared s.analysed k g.archive_path) i
              (subst (λ p. Cleared s.analysed id p) (sym same ∙ ap (λ y. y.archive_path) one)
                cleared)
      ])
      h

settled-IsSound :
    (s : Platform) (up : Bool) (drive_name : Bytes) (b : BuildMessage) (e : Option RunError)
    (w : Service.World)
    → Memᴰ b s.claimed
    → IsSound s
    → IsSound (record s {
      functions = (settle_prepare up drive_name b.function_id e (vm_world s w)).0.functions;
    })
settled-IsSound s up drive_name b none w among h = ready-IsSound s up drive_name b among h
settled-IsSound s up drive_name b (some e) w among h =
    if_both
      (λ (r : Service.World × Option Service.ServiceError).
        IsSound (record s { functions = r.0.functions }))
      (is_user_error e) (with_status-IsSound s up b.function_id Function.failed refl h)
      (with_status-IsSound s up b.function_id Function.verified refl h)

request-IsAnalysed :
    (s : Platform) (up publish_ok : Bool) (body : Option Bytes) (id : Option Uuid) (fresh : Uuid)
    (now : ℕ)
    → IsSound s
    → Each
        (IsAnalysed s.analysed)
        (execute_lambda up publish_ok body id fresh now s.functions s.invocations).published
request-IsAnalysed s up publish_ok none id fresh now h = unfold execute_lambda in Each-nil _
request-IsAnalysed s up publish_ok (some payload) none fresh now h =
    let large = ltb max_payload_size (length payload) in
    unfold execute_lambda in
    if_both (λ (r : Executed). Each (IsAnalysed s.analysed) r.published) large (Each-nil _)
      (Each-nil _)
request-IsAnalysed s up publish_ok (some payload) (some id) fresh now h =
    let r =
      execute_lambda up publish_ok (some payload) (some id) fresh now s.functions s.invocations in
    let names =
      execute_lambda-AllNames up publish_ok payload id fresh now s.functions s.invocations in
    λ m among.
      let (f, drive, at, drives, code, _, _, _) =
        Each-All (Runs.Names id s.functions r.invocations payload) r.published names m among in
      let cleared = h.served id f at (ground (arith, drives)) in
      (id, subst (λ p. Cleared s.analysed id p) (sym code) cleared)

requested-IsSound :
    (s : Platform) (up publish_ok : Bool) (body : Option Bytes) (id : Option Uuid) (fresh : Uuid)
    (now : ℕ)
    → IsSound s
    → IsSound
        (requested (execute_lambda up publish_ok body id fresh now s.functions s.invocations) s)
requested-IsSound s up publish_ok body id fresh now h = record {
  uploads = h.uploads;
  events = h.events;
  messages = h.messages;
  builds = h.builds;
  claimed = h.claimed;
  served = h.served;
  executions =
      Each-append _ s.executions _ h.executions
        (request-IsAnalysed s up publish_ok body id fresh now h);
}

-- Every call of the programs keeps the invariant.
pub Step-IsSound : {s t : Platform} → Step s t → IsSound s → IsSound t
Step-IsSound {s} (uploads_file put_ok up unique fresh user parts) h =
    uploaded-IsSound s put_ok up unique fresh user parts h
Step-IsSound {s} (checks_upload v rest e) h = checked-IsSound s v rest e h
Step-IsSound {s} (passes_upload sent e rest at) h = passed_on-IsSound s sent e rest at h
Step-IsSound server_restarts h = record {
  uploads = Each-nil _;
  events = Each-nil _;
  messages = h.messages;
  builds = h.builds;
  claimed = h.claimed;
  served = h.served;
  executions = h.executions;
}
Step-IsSound {s} (lands up m among) h =
    with_status-IsSound s up m.function_id Function.scanning refl h
Step-IsSound {s} (analyses d m decoded among) h = analysed_with-IsSound s d m decoded among h
Step-IsSound analyzer_restarts h = record {
  uploads = h.uploads;
  events = h.events;
  messages = h.messages;
  builds = h.builds;
  claimed = h.claimed;
  served = h.served;
  executions = h.executions;
}
Step-IsSound {s} (claims_build up b among) h = claimed_with-IsSound s up b among h
Step-IsSound {s} (settles_build up drive_name b e w among) h =
    settled-IsSound s up drive_name b e w among h
Step-IsSound {s} (fails_build up b among) h =
    with_status-IsSound s up b.function_id Function.failed refl h
Step-IsSound {s} (requests_run up publish_ok body id fresh now) h =
    requested-IsSound s up publish_ok body id fresh now h
Step-IsSound (runs c m w among) h = record {
  uploads = h.uploads;
  events = h.events;
  messages = h.messages;
  builds = h.builds;
  claimed = h.claimed;
  served = h.served;
  executions = h.executions;
}

pub Reach-IsSound : {s : Platform} → Reach empty s → IsSound s
Reach-IsSound here = empty-IsSound
Reach-IsSound (next r st) = Step-IsSound st (Reach-IsSound r)

-- In every state that the server, the analyzer and the machines lead to from the empty platform, in any
-- order of their calls: a function that is READY or has a drive was analysed under its own identifier
-- and archive, and the file passed every stage; and a machine is asked to run only archives that passed so.
pub Reach-gated :
    {s : Platform}
    → Reach empty s
    → ((id : Uuid) (f : Function.Function)
        → row id s.functions ≡ some f
        → is_served f ≡ true
        → Cleared s.analysed id f.archive_path)
      × ((m : ExecuteMessage)
          → Memᴰ m s.executions
          → (id : Uuid) × Cleared s.analysed id m.code_object_name)
Reach-gated r = let h = Reach-IsSound r in (h.served, h.executions)
