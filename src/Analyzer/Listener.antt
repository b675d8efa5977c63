-- ===== src/Analyzer/Listener.antt =====
-- internal/analyzer/message/listener.go, with Move of internal/analyzer/orchestrator/filestore.go and
-- Publish of internal/analyzer/vmpublish/publish.go: what one message of the queue does to the
-- database, the buckets and the build queue.
pub mod Gate
pub mod Statuses
pub mod Effects
use oblak.Prelude.{
  if◌then◌else◌, is_some, ℕ, ◌+◌, Bool, not, ◌&&◌, Option, none, some, List, [], ◌∷◌, ◌++◌,
}
use oblak.Text.{Bytes, bytes_eq}
use oblak.Sql.{Uuid, DbError}
use oblak.Function.{Functions, Status, update_function_status}
use oblak.Analyzer.Orchestrator.{
  AnalysisVerdict, malicious, AnalysisError, Services, Workspace, Outcome, returned, exited,
  analyze_file,
}
use oblak.Analyzer.Clam.{any}

pub record FunctionMessage : Type 0 where
  pub function_id : Uuid
  pub bucket : Bytes
  pub path : Bytes

pub record BuildMessage : Type 0 where
  pub function_id : Uuid
  pub code_object_name : Bytes

-- The objects of the quarantine bucket and of the functions bucket, the build queue, the table of
-- functions and the host's files.
pub record World : Type 0 where
  pub functions : Functions
  pub quarantine : List Bytes
  pub promoted : List Bytes
  pub builds : List BuildMessage
  pub workspace : Workspace

pub data ProcessError : Type 0 where
  bad_payload copy_failed remove_failed publish_failed : ProcessError
  db_failed : DbError → ProcessError
  analysis_failed : AnalysisError → ProcessError

pub data Ended : Type 0 where
  finished : Option ProcessError → Ended
  crashed : Ended

-- What the outside does while one message is processed: the payload as json.Unmarshal reads it, the
-- services of the analysis, and whether the database, MinIO and RabbitMQ do what they are asked.
pub record Delivery : Type 0 where
  pub payload : Option FunctionMessage
  pub services : Services
  pub id_text : Bytes
  pub land_up : Bool
  pub status_up : Bool
  pub copy_ok : Bool
  pub remove_ok : Bool
  pub publish_ok : Bool

-- RemoveObject
unfoldable pub remove_object : Bytes → List Bytes → List Bytes
remove_object name [] = []
remove_object name (o ∷ objects) =
    let rest = remove_object name objects in if bytes_eq o name then rest else o ∷ rest

-- Move: a copy into the functions bucket, then the removal from quarantine.
unfoldable pub move : Bool → Bool → Bytes → World → World × Option ProcessError
unfolding remove_object
move copy_ok remove_ok name w =
    let copied = record w { promoted = name ∷ w.promoted } in
    if not (copy_ok && any (λ o. bytes_eq o name) w.quarantine)
    then (w, some copy_failed)
    else if not remove_ok
    then (copied, some remove_failed)
    else (record copied { quarantine = remove_object name w.quarantine }, none)

-- vmpublish.Publish
unfoldable pub publish : Bool → Uuid → Bytes → World → World × Option ProcessError
publish publish_ok id name w =
    if publish_ok
    then (
      record w { builds = w.builds ++ record { function_id = id; code_object_name = name } ∷ [] },
      none,
    )
    else (w, some publish_failed)

-- updateFunctionStatus: the status that a verdict gives.
abbrev pub status_for : AnalysisVerdict → Status
status_for malicious = Status.detected
status_for _ = Status.verified

pub set_status : Bool → Uuid → Status → World → World × Option ProcessError
set_status up id s w =
    let (t, e) = update_function_status up id s w.functions in
    (record w { functions = t }, elim e [ none ↦ none | some x ↦ some (db_failed x) ])

-- From the move on, for a verdict that is not malicious and came with no error.
pub promote : Delivery → FunctionMessage → World → World × Ended
unfolding move publish
promote d m w =
    let (w1, moved) = move d.copy_ok d.remove_ok m.path w in
    let (w2, published) = publish d.publish_ok m.function_id m.path w1 in
    if is_some moved then (w1, finished moved) else (w2, finished published)

pub conclude :
    Delivery → FunctionMessage → AnalysisVerdict → Option AnalysisError → World → World × Ended
unfolding promote
conclude d m v (some e) w = (w, finished (some (analysis_failed e)))
conclude d m malicious none w = (w, finished none)
conclude d m _ none w = promote d m w

-- From the outcome of the analysis on.
unfoldable pub after_analysis : Delivery → FunctionMessage → Outcome → World → World × Ended
unfolding set_status conclude
after_analysis d m exited w = (w, crashed)
after_analysis d m (returned v e) w =
    let (w', db_err) = set_status d.status_up m.function_id (status_for v) w in
    if is_some db_err then (w', finished db_err) else conclude d m v e w'

-- From the decoded payload on.
pub receive : Delivery → FunctionMessage → World → World × Ended
unfolding set_status after_analysis
receive d m w =
    let (w1, landed) = set_status d.land_up m.function_id Status.scanning w in
    let (ws, out) = analyze_file d.services d.id_text w1.workspace in
    if is_some landed
    then (w1, finished landed)
    else after_analysis d m out (record w1 { workspace = ws })

on_payload : Option FunctionMessage → Delivery → World → World × Ended
unfolding receive
on_payload none d w = (w, finished (some bad_payload))
on_payload (some m) d w = receive d m w

-- processMessage
unfoldable pub process_message : Delivery → World → World × Ended
unfolding on_payload
process_message d w = on_payload d.payload d w

-- The consumption loop: each message is acknowledged before it is processed, an error is logged, and
-- the end of the process leaves the rest of the messages to the broker. The result counts the
-- acknowledged messages.
unfoldable pub consume : List Delivery → World → World × ℕ
consume [] w = (w, 0)
consume (d ∷ ds) w =
    let (w', ended) = process_message d w in
    let rest = consume ds w' in elim ended [ crashed ↦ (w', 1) | finished _ ↦ (rest.0, rest.1 + 1) ]
