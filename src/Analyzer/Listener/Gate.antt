-- ===== src/Analyzer/Listener/Gate.antt =====
-- What leaves quarantine, and the status that a function is left with.
use mathlib.Core.List.{Memᴰ}
use mathlib.Core.Path.{subst}
use oblak.Prelude.{
  is_some, ◌≡◌, refl, ◌≢◌, inl, inr, true, Option, none, some, List, arith, if_both, Option-cases,
  [], ◌∷◌, ◌⊎◌, ◌++◌, sym, ap,
}
use oblak.Text.{Bytes}
use oblak.Analyzer.Orchestrator.{
  AnalysisVerdict, failure, malicious, safe, AnalysisError, Outcome, returned, exited, analyze_file,
}
use oblak.Analyzer.Orchestrator.Verdicts.{Passes, analyze_file_safe_iff, analyze_file_errors}
use oblak.Analyzer.Listener.{
  FunctionMessage, World, Delivery, status_for, set_status, conclude, after_analysis, Ended,
  process_message, BuildMessage, promote, consume, ProcessError, finished, crashed, receive,
  on_payload,
}
use oblak.Analyzer.Tools.{Finding}
use oblak.Function.{Status}
use oblak.Sql.{Uuid}

-- The file of a message passes every stage of the analysis.
abbrev pub IsPassing : Delivery → Type 0
IsPassing d =
    (findings : List Finding) × (verdict : Bytes) × Passes d.services d.id_text findings verdict

-- Nothing was promoted and no build was asked for.
abbrev pub IsHeld : World → World → Type 0
IsHeld w w' = (w'.promoted ≡ w.promoted) × (w'.builds ≡ w.builds) × (w'.quarantine ≡ w.quarantine)

conclude-IsHeld :
    (d : Delivery) (m : FunctionMessage) (v : AnalysisVerdict) (e : Option AnalysisError)
    (w : World)
    → (v ≡ failure → is_some e ≡ true)
    → (returned v e ≢ returned safe none)
    → IsHeld w (conclude d m v e w).0
unfolding conclude
conclude-IsHeld d m failure e w f h = ground arith
conclude-IsHeld d m malicious e w f h = ground arith
conclude-IsHeld d m safe none w f h = absurd (h refl)
conclude-IsHeld d m safe (some e) w f h = (refl, refl, refl)

pub after_analysis-IsHeld :
    (d : Delivery) (m : FunctionMessage) (out : Outcome) (w : World)
    → ((v : AnalysisVerdict) (e : Option AnalysisError)
        → out ≡ returned v e
        → v ≡ failure
        → is_some e ≡ true)
    → out ≢ returned safe none
    → IsHeld w (after_analysis d m out w).0
unfolding after_analysis
after_analysis-IsHeld d m exited w f h = (refl, refl, refl)
after_analysis-IsHeld d m (returned v e) w f h =
    let (w', db_err) = set_status d.status_up m.function_id (status_for v) w in
    if_both (λ (r : World × Ended). IsHeld w r.0) (is_some db_err) (refl, refl, refl)
      (conclude-IsHeld d m v e w' (f v e refl) h)

-- The outcome of the analysis that a message runs.
abbrev pub landed_world : Delivery → FunctionMessage → World → World
landed_world d m w = (set_status d.land_up m.function_id Status.scanning w).0

abbrev pub verdict_of : Delivery → FunctionMessage → World → Outcome
verdict_of d m w = (analyze_file d.services d.id_text (landed_world d m w).workspace).1

pub process_message-receive :
    (d : Delivery) (m : FunctionMessage) (w : World)
    → d.payload ≡ some m
    → process_message d w ≡ receive d m w
unfolding process_message
process_message-receive d m w p = ap (λ o. on_payload o d w) p

pub process_message-IsHeld_at :
    (d : Delivery) (m : FunctionMessage) (w : World)
    → d.payload ≡ some m
    → verdict_of d m w ≢ returned safe none
    → IsHeld w (process_message d w).0
unfolding process_message
process_message-IsHeld_at d m w p h =
    let w1 = landed_world d m w in
    let ws = (analyze_file d.services d.id_text w1.workspace).0 in
    let keeps : IsHeld w (receive d m w).0 =
      if_both (λ (r : World × Ended). IsHeld w r.0)
        (is_some (set_status d.land_up m.function_id Status.scanning w).1) (refl, refl, refl)
        (after_analysis-IsHeld d m (verdict_of d m w) (record w1 { workspace = ws })
          (λ v e o. (analyze_file_errors d.services d.id_text w1.workspace v e o).0) h) in
    subst (λ r. IsHeld w r.0) (sym (process_message-receive d m w p)) keeps

-- The build that a message asks for.
abbrev pub build_of : FunctionMessage → BuildMessage
build_of m = record { function_id = m.function_id; code_object_name = m.path }

-- At most one build and one object more, those of the message.
abbrev pub Adds : FunctionMessage → World → World → Type 0
Adds m w w' =
    ((w'.builds ≡ w.builds) ⊎ (w'.builds ≡ w.builds ++ build_of m ∷ []))
    × ((w'.promoted ≡ w.promoted) ⊎ (w'.promoted ≡ m.path ∷ w.promoted))

promote-Adds : (d : Delivery) (m : FunctionMessage) (w : World) → Adds m w (promote d m w).0
unfolding promote
promote-Adds d m w = (ground arith, ground arith)

conclude-Adds :
    (d : Delivery) (m : FunctionMessage) (v : AnalysisVerdict) (e : Option AnalysisError)
    (w : World)
    → Adds m w (conclude d m v e w).0
unfolding conclude
conclude-Adds d m v (some e) w = (inl refl, inl refl)
conclude-Adds d m malicious none w = (inl refl, inl refl)
conclude-Adds d m failure none w = promote-Adds d m w
conclude-Adds d m safe none w = promote-Adds d m w

pub after_analysis-Adds :
    (d : Delivery) (m : FunctionMessage) (out : Outcome) (w : World)
    → Adds m w (after_analysis d m out w).0
unfolding after_analysis
after_analysis-Adds d m exited w = (inl refl, inl refl)
after_analysis-Adds d m (returned v e) w =
    let (w', db_err) = set_status d.status_up m.function_id (status_for v) w in
    if_both (λ (r : World × Ended). Adds m w r.0) (is_some db_err) (inl refl, inl refl)
      (conclude-Adds d m v e w')

process_message-Adds :
    (d : Delivery) (m : FunctionMessage) (w : World)
    → d.payload ≡ some m
    → Adds m w (process_message d w).0
unfolding process_message
process_message-Adds d m w p =
    let w1 = landed_world d m w in
    let ws = (analyze_file d.services d.id_text w1.workspace).0 in
    let adds : Adds m w (receive d m w).0 =
      if_both (λ (r : World × Ended). Adds m w r.0)
        (is_some (set_status d.land_up m.function_id Status.scanning w).1) (inl refl, inl refl)
        (after_analysis-Adds d m (verdict_of d m w) (record w1 { workspace = ws })) in
    subst (λ r. Adds m w r.0) (sym (process_message-receive d m w p)) adds

-- Whether an outcome is the safe verdict.
pub safe_cases : (out : Outcome) → (out ≡ returned safe none) ⊎ (out ≢ returned safe none)
safe_cases exited = inr (λ h. cc)
safe_cases (returned safe none) = inl refl
safe_cases (returned safe (some e)) = inr (λ h. cc)
safe_cases (returned failure e) = inr (λ h. cc)
safe_cases (returned malicious e) = inr (λ h. cc)

-- A build request or a promoted object that comes from a message whose file passes the analysis.
pub record Cleared (ds : List Delivery) (id : Uuid) (name : Bytes) : Type 0 where
  pub delivery : Delivery
  pub among : Memᴰ delivery ds
  pub message : FunctionMessage
  pub decoded : delivery.payload ≡ some message
  pub passing : IsPassing delivery
  pub same_id : message.function_id ≡ id
  pub same_name : message.path ≡ name

pub mem-snoc {ℓ} : {A : Type ℓ} {a x : A} (l : List A) → Memᴰ a (l ++ x ∷ []) → Memᴰ a l ⊎ (a ≡ x)
mem-snoc [] (Memᴰ.head e) = inr e
mem-snoc [] (Memᴰ.tail m) = elim m [ ]
mem-snoc (y ∷ l) (Memᴰ.head e) = inl (Memᴰ.head e)
mem-snoc (y ∷ l) (Memᴰ.tail m) = elim (mem-snoc l m) [ inl n ↦ inl (Memᴰ.tail n) | inr e ↦ inr e ]

-- A message adds nothing, or it adds its own build and object and its file passes the analysis.
step_cases :
    (d : Delivery) (w : World)
    → IsHeld w (process_message d w).0
      ⊎ ((m : FunctionMessage) × (d.payload ≡ some m)
          × IsPassing d
          × Adds m w (process_message d w).0)
unfolding process_message
step_cases d w = elim (Option-cases d.payload) [
  | inl e ↦ inl (rw e (refl, refl, refl))
  | inr (m, e) ↦ elim (safe_cases (verdict_of d m w)) [
    | inl h ↦ inr (
      m,
      e,
      (analyze_file_safe_iff d.services d.id_text (landed_world d m w).workspace).0 h,
      process_message-Adds d m w e,
    )
    | inr h ↦ inl (process_message-IsHeld_at d m w e h)
  ]
]

pub weaken :
    {d : Delivery} {ds : List Delivery} {id : Uuid} {name : Bytes}
    → Cleared ds id name
    → Cleared (d ∷ ds) id name
weaken c = record {
  delivery = c.delivery;
  among = Memᴰ.tail c.among;
  message = c.message;
  decoded = c.decoded;
  passing = c.passing;
  same_id = c.same_id;
  same_name = c.same_name;
}

process_message-Cleared :
    (d : Delivery) (ds : List Delivery) (w : World) (b : BuildMessage)
    → Memᴰ b (process_message d w).0.builds
    → Memᴰ b w.builds ⊎ Cleared (d ∷ ds) b.function_id b.code_object_name
process_message-Cleared d ds w b h = elim (step_cases d w) [
  | inl held ↦ inl (subst (Memᴰ b) held.1 h)
  | inr (m, decoded, passing, adds) ↦ elim adds.0 [
    | inl e ↦ inl (subst (Memᴰ b) e h)
    | inr e ↦ elim (mem-snoc w.builds (subst (Memᴰ b) e h)) [
      | inl old ↦ inl old
      | inr new ↦ inr record {
        delivery = d;
        among = Memᴰ.head refl;
        message = m;
        decoded = decoded;
        passing = passing;
        same_id = ap (λ (x : BuildMessage). x.function_id) (sym new);
        same_name = ap (λ (x : BuildMessage). x.code_object_name) (sym new);
      }
    ]
  ]
]

Ended-cases : (r : Ended) → (r ≡ crashed) ⊎ ((e : Option ProcessError) × (r ≡ finished e))
Ended-cases crashed = inl refl
Ended-cases (finished e) = inr (e, refl)

-- Every build that a sequence of messages leaves in the queue was there before, or it is the build
-- of one of the messages, whose file passes every stage of the analysis.
pub consume-Cleared :
    (ds : List Delivery) (w : World) (b : BuildMessage)
    → Memᴰ b (consume ds w).0.builds
    → Memᴰ b w.builds ⊎ Cleared ds b.function_id b.code_object_name
unfolding consume
consume-Cleared [] w b h = inl h
consume-Cleared (d ∷ ds) w b h =
    let w' = (process_message d w).0 in
    let first = process_message-Cleared d ds w b in
    elim (Ended-cases (process_message d w).1) [
      | inl e ↦ first (rw (e, consume) at h)
      | inr (x, e) ↦ elim (consume-Cleared ds w' b (rw (e, consume) at h)) [
        | inl m ↦ first m
        | inr c ↦ inr (weaken c)
      ]
    ]
