-- ===== src/Analyzer/Listener/Statuses.antt =====
-- The status that a message leaves its function with.
use oblak.Prelude.{
  ◌==◌, if◌then◌else◌, ◌≡◌, refl, true, Option, none, some, arith, ap, ◌∙◌, if_false, is_some,
  false, ok, List,
}
use oblak.Function.{Status, status_of, update_function_status}
use oblak.Function.Laws.{given, status-update}
use oblak.Analyzer.Orchestrator.{
  AnalysisVerdict, failure, malicious, safe, AnalysisError, Outcome, returned, exited, analyze_file,
  unsafe_file, Services, Workspace,
}
use oblak.Analyzer.Listener.{
  FunctionMessage, World, Delivery, status_for, set_status, promote, conclude, after_analysis,
  process_message, ProcessError, Ended, finished, analysis_failed, receive,
}
use oblak.Sql.{Uuid}
use oblak.Analyzer.Unzipper.{extract, new_unzipper}
use oblak.Analyzer.Orchestrator.Verdicts.{target}
use oblak.Analyzer.Clam.{any, is_found, is_error, scan_local_path}
use oblak.Analyzer.Listener.Gate.{
  verdict_of, landed_world, process_message-receive, IsHeld, process_message-IsHeld_at,
}
use oblak.Text.{Bytes}
use oblak.Analyzer.Unzipper.{new_unzipper}
use oblak.Analyzer.Clam.{scan_local_path_lem, is_error, is_found, scan_local_path, ResStatus}

-- The status that an outcome gives to the function that was analysed.
abbrev pub settled : Outcome → Status
settled exited = Status.scanning
settled (returned v e) = status_for v

set_status-given :
    (id : Uuid) (s : Status) (w : World) (j : Uuid)
    → status_of j (set_status true id s w).0.functions
      ≡ (if id == j then given s (status_of j w.functions) else status_of j w.functions)
unfolding set_status
set_status-given id s w j = status-update id w.functions s j

set_status_ok : (id : Uuid) (s : Status) (w : World) → (set_status true id s w).1 ≡ none
unfolding set_status update_function_status
set_status_ok id s w = refl

promote_functions :
    (d : Delivery) (m : FunctionMessage) (w : World) → (promote d m w).0.functions ≡ w.functions
unfolding promote
promote_functions d m w = ground arith

pub conclude_functions :
    (d : Delivery) (m : FunctionMessage) (v : AnalysisVerdict) (e : Option AnalysisError)
    (w : World)
    → (conclude d m v e w).0.functions ≡ w.functions
unfolding conclude
conclude_functions d m v (some e) w = refl
conclude_functions d m malicious none w = refl
conclude_functions d m failure none w = promote_functions d m w
conclude_functions d m safe none w = promote_functions d m w

returned_functions :
    (d : Delivery) (m : FunctionMessage) (v : AnalysisVerdict) (e : Option AnalysisError)
    (w : World)
    → d.status_up ≡ true
    → (after_analysis d m (returned v e) w).0.functions
      ≡ (set_status true m.function_id (status_for v) w).0.functions
unfolding after_analysis
returned_functions d m v e w u = rw u (
    rw (set_status_ok m.function_id (status_for v) w)
      (conclude_functions d m v e (set_status true m.function_id (status_for v) w).0))

after_analysis_status :
    (d : Delivery) (m : FunctionMessage) (out : Outcome) (w0 w : World) (j : Uuid)
    → d.status_up ≡ true
    → w.functions ≡ (set_status true m.function_id Status.scanning w0).0.functions
    → status_of j (after_analysis d m out w).0.functions ≡ (
        if m.function_id == j
        then given (settled out) (status_of j w0.functions)
        else status_of j w0.functions)
after_analysis_status d m exited w0 w j u h =
    unfold after_analysis in
    ap (status_of j) h ∙ set_status-given m.function_id Status.scanning w0 j
after_analysis_status d m (returned v e) w0 w j u h =
    let id = m.function_id in
    ap (status_of j) (returned_functions d m v e w u)
    ∙ set_status-given id (status_for v) w j
    ∙ (rw (ap (status_of j) h ∙ set_status-given id Status.scanning w0 j) (ground arith))

-- A message that is decoded, with a database that answers, leaves its function SCANNING where the
-- process ends, DETECTED on a malicious verdict, and VERIFIED on any other verdict, a failure
-- included. The status of every other function is unchanged.
pub process_message_status :
    (d : Delivery) (m : FunctionMessage) (w : World) (j : Uuid)
    → d.payload ≡ some m
    → d.land_up ≡ true
    → d.status_up ≡ true
    → status_of j (process_message d w).0.functions ≡ (
        if m.function_id == j
        then given (settled (verdict_of d m w)) (status_of j w.functions)
        else status_of j w.functions)
unfolding process_message
process_message_status d m w j p l u =
    let id = m.function_id in
    let w1 = landed_world d m w in
    let ws = (analyze_file d.services d.id_text w1.workspace).0 in
    let lands = ap (λ b. set_status b id Status.scanning w) l in
    let answered : is_some (set_status d.land_up id Status.scanning w).1 ≡ false =
      ap (λ (r : World × Option ProcessError). is_some r.1) lands
      ∙ ap is_some (set_status_ok id Status.scanning w) in
    let status = λ (r : World × Ended). status_of j r.0.functions in
    ap status (process_message-receive d m w p)
    ∙ ap status (if_false _ _ answered)
    ∙ after_analysis_status d m (verdict_of d m w) w (record w1 { workspace = ws }) j u
        (ap (λ (r : World × Option ProcessError). r.0.functions) lands)

-- A message whose analysis ends with an error ends with it.
ended_unsafe :
    (d : Delivery) (m : FunctionMessage) (w : World)
    → d.payload ≡ some m
    → d.land_up ≡ true
    → d.status_up ≡ true
    → verdict_of d m w ≡ returned failure (some unsafe_file)
    → (process_message d w).1 ≡ finished (some (analysis_failed unsafe_file))
unfolding receive after_analysis set_status conclude update_function_status
ended_unsafe d m w p l u v =
    ap (λ (r : World × Ended). r.1) (process_message-receive d m w p) ∙ rw (l, v, u) refl

infected_verdict :
    (sv : Services) (id : Bytes) (ws : Workspace) (results : List ResStatus)
    → sv.download_ok ≡ true
    → (extract (new_unzipper none) sv.archive (target id)).1 ≡ none
    → sv.audit_ok ≡ true
    → sv.scan ≡ scan_local_path (ok results)
    → any is_found results ≡ true
    → any is_error results ≡ false
    → (analyze_file sv id ws).1 ≡ returned failure (some unsafe_file)
unfolding analyze_file
infected_verdict sv id ws results d e a s f n = ground (arith, scan_local_path_lem results)

-- A message that is decoded, while the database answers, whose file can be downloaded and unpacked and
-- passes the audit, and in which the antivirus finds a match and meets no error, leaves its function,
-- where there is one, with the status VERIFIED; yet its processing ends with the error that the file is
-- unsafe, and nothing leaves quarantine and no build is asked for.
pub infected_is_verified :
    (d : Delivery) (m : FunctionMessage) (w : World) (results : List ResStatus)
    → d.payload ≡ some m
    → d.land_up ≡ true
    → d.status_up ≡ true
    → d.services.download_ok ≡ true
    → (extract (new_unzipper none) d.services.archive (target d.id_text)).1 ≡ none
    → d.services.audit_ok ≡ true
    → d.services.scan ≡ scan_local_path (ok results)
    → any is_found results ≡ true
    → any is_error results ≡ false
    → (status_of m.function_id (process_message d w).0.functions
        ≡ given Status.verified (status_of m.function_id w.functions))
      × IsHeld w (process_message d w).0
      × ((process_message d w).1 ≡ finished (some (analysis_failed unsafe_file)))
infected_is_verified d m w results p l u dl e a s f n =
    let v =
      infected_verdict d.services d.id_text (landed_world d m w).workspace results dl e a s f n in
    let st = process_message_status d m w m.function_id p l u in
    (ground arith, process_message-IsHeld_at d m w p (λ h. cc), ended_unsafe d m w p l u v)
