-- ===== src/Analyzer/Listener/Effects.antt =====
-- What the second half of processMessage, behind the analysis, does to the build queue and to the table
-- of the functions.
use mathlib.Core.List.{Memᴰ}
use mathlib.Core.Path.{subst}
use oblak.Prelude.{
  arith, is_some, if_both, ◌≡◌, refl, sym, ap, ◌∙◌, ◌⊎◌, inl, inr, true, false, none, some, List,
  [], ◌∷◌, ◌++◌,
}
use oblak.Analyzer.Orchestrator.{
  AnalysisVerdict, failure, malicious, safe, Outcome, returned, exited, analyze_file, Workspace,
}
use oblak.Analyzer.Orchestrator.Verdicts.{analyze_file_safe_iff, analyze_file_errors}
use oblak.Analyzer.Listener.{
  FunctionMessage, World, Delivery, BuildMessage, status_for, set_status, after_analysis, receive,
  Ended, conclude, promote, move, publish, process_message,
}
use oblak.Analyzer.Clam.{any}
use oblak.Text.{bytes_eq}
use oblak.Analyzer.Listener.Gate.{
  process_message-receive, verdict_of, build_of, Cleared, after_analysis-IsHeld,
  after_analysis-Adds, safe_cases, mem-snoc,
}
use oblak.Analyzer.Listener.Statuses.{conclude_functions}
use oblak.Function.{Status, is_status, Functions, update_function_status}

-- A build that is asked for behind the analysis was asked for before, or it is that of the message,
-- whose file passed.
pub after_analysis-Cleared :
    (d : Delivery) (ds : List Delivery) (m : FunctionMessage) (ws : Workspace) (w : World)
    (b : BuildMessage)
    → d.payload ≡ some m
    → Memᴰ b (after_analysis d m (analyze_file d.services d.id_text ws).1 w).0.builds
    → Memᴰ b w.builds ⊎ ((b ≡ build_of m) × Cleared (d ∷ ds) b.function_id b.code_object_name)
after_analysis-Cleared d ds m ws w b decoded h =
    let out = (analyze_file d.services d.id_text ws).1 in
    elim (safe_cases out) [
      | inr held ↦ inl (
          subst (Memᴰ b)
            (after_analysis-IsHeld d m out w
              (λ v e o. (analyze_file_errors d.services d.id_text ws v e o).0) held).1
            h)
      | inl clean ↦ elim (after_analysis-Adds d m out w).0 [
        | inl e ↦ inl (subst (Memᴰ b) e h)
        | inr e ↦ elim (mem-snoc w.builds (subst (Memᴰ b) e h)) [
          | inl old ↦ inl old
          | inr new ↦ inr (
            new,
            record {
              delivery = d;
              among = Memᴰ.head refl;
              message = m;
              decoded = decoded;
              passing = (analyze_file_safe_iff d.services d.id_text ws).0 clean;
              same_id = ap (λ (x : BuildMessage). x.function_id) (sym new);
              same_name = ap (λ (x : BuildMessage). x.code_object_name) (sym new);
            },
          )
        ]
      ]
    ]

status_for_unready : (v : AnalysisVerdict) → is_status (status_for v) Status.ready ≡ false
status_for_unready failure = refl
status_for_unready malicious = refl
status_for_unready safe = refl

-- The table is left as it was, or one status is set that is not READY.
abbrev pub Assigns : Delivery → FunctionMessage → Functions → Functions → Type 0
Assigns d m t t' =
    (t' ≡ t)
    ⊎ ((s : Status) × (is_status s Status.ready ≡ false)
        × (t' ≡ (update_function_status d.status_up m.function_id s t).0))

pub after_analysis-Assigns :
    (d : Delivery) (m : FunctionMessage) (out : Outcome) (w : World)
    → Assigns d m w.functions (after_analysis d m out w).0.functions
unfolding after_analysis
after_analysis-Assigns d m exited w = inl refl
after_analysis-Assigns d m (returned v e) w =
    let (w', db_err) = set_status d.status_up m.function_id (status_for v) w in
    inr (
      status_for v,
      status_for_unready v,
      if_both
          (λ (r : World × Ended).
            r.0.functions
            ≡ (update_function_status d.status_up m.function_id (status_for v) w.functions).0)
          (is_some db_err) (unfold set_status in refl)
          (conclude_functions d m v e w' ∙ (unfold set_status in refl)),
    )

-- A message ends where its first statement fails, or behind the analysis.
pub receive-either {κ} :
    (P : World → Type κ) (d : Delivery) (m : FunctionMessage) (w : World)
    → let (ws, out) = analyze_file d.services d.id_text w.workspace in
      let t = (update_function_status d.land_up m.function_id Status.scanning w.functions).0 in
      P (record w { functions = t })
      → P (after_analysis d m out (record w { functions = t; workspace = ws })).0
      → P (receive d m w).0
unfolding receive set_status
receive-either P d m w first second =
    if_both (λ (r : World × Ended). P r.0)
      (is_some (set_status d.land_up m.function_id Status.scanning w).1) first second

-- What a message leaves whose file passes, where the database, the buckets and the queue are there.
pub after_analysis-safe :
    (d : Delivery) (m : FunctionMessage) (w : World)
    → d.status_up ≡ true
    → d.copy_ok ≡ true
    → d.remove_ok ≡ true
    → d.publish_ok ≡ true
    → any (λ o. bytes_eq o m.path) w.quarantine ≡ true
    → let w' = (after_analysis d m (returned safe none) w).0 in
      (w'.functions ≡ (update_function_status true m.function_id Status.verified w.functions).0)
      × (w'.builds ≡ w.builds ++ build_of m ∷ [])
unfolding after_analysis set_status conclude promote move publish update_function_status
after_analysis-safe d m w up copies removes publishes there = (ground arith, ground arith)

-- The database, the buckets and the queue answer the analyzer while it processes a message.
abbrev pub IsServed : Delivery → Type 0
IsServed d =
    (d.land_up ≡ true)
    × (d.status_up ≡ true)
    × (d.copy_ok ≡ true)
    × (d.remove_ok ≡ true)
    × (d.publish_ok ≡ true)

pub processed-safe :
    (d : Delivery) (m : FunctionMessage) (w : World)
    → d.payload ≡ some m
    → IsServed d
    → any (λ o. bytes_eq o m.path) w.quarantine ≡ true
    → (analyze_file d.services d.id_text w.workspace).1 ≡ returned AnalysisVerdict.safe none
    → let w' = (process_message d w).0 in
      (w'.functions
        ≡ (update_function_status true m.function_id Status.verified
            (update_function_status true m.function_id Status.scanning w.functions).0).0)
      × (w'.builds ≡ w.builds ++ build_of m ∷ [])
unfolding receive set_status update_function_status
processed-safe d m w decoded (lands, up, copies, removes, publishes) there passes =
    let ws = (analyze_file d.services d.id_text w.workspace).0 in
    let landed : World = record (set_status true m.function_id Status.scanning w).0 {
      workspace = ws;
    } in
    let verified = (update_function_status true m.function_id Status.verified landed.functions).0 in
    subst
      (λ (r : World × Ended).
        (r.0.functions ≡ verified) × (r.0.builds ≡ w.builds ++ build_of m ∷ []))
      (sym (process_message-receive d m w decoded))
      (rw (lands, passes) (after_analysis-safe d m landed up copies removes publishes there))

-- The status before the analysis is no part of the files that it works on.
pub verdict-landed :
    (d : Delivery) (m : FunctionMessage) (w : World)
    → verdict_of d m w ≡ (analyze_file d.services d.id_text w.workspace).1
unfolding set_status
verdict-landed d m w = refl
