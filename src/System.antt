-- ===== src/System.antt =====
-- The three programs of cmd/server, cmd/analyzer and cmd/vm over what they share: the database, the
-- buckets, the buses of the server and the queues between the programs. Each constructor of `Step` is a
-- call that one of them makes while it holds no other: the statements of the others fall between.
pub mod Tables
pub mod Sound
pub mod Intake
pub mod Gated
pub mod Calls
pub mod Keyed
pub mod Progress
pub mod Settings
use mathlib.Core.List.{Memᴰ, map}
use oblak.Prelude.{
  Result, ok, err, ℕ, suc, ◌≡◌, Bool, true, false, Option, none, some, List, [], ◌∷◌, ◌++◌,
}
use oblak.Text.{Bytes}
use oblak.Sql.{DbError, Uuid}
use oblak.Function
use oblak.Function.{Functions, Status, update_function_status, update_function_status_if}
use oblak.Invocation.{Invocations}
use oblak.Analyzer.Orchestrator.{Workspace, Outcome, analyze_file, purged}
use oblak.Analyzer.Listener
use oblak.Analyzer.Listener.{FunctionMessage, BuildMessage, Delivery, after_analysis}
use oblak.Server.Bus.{publish_all}
use oblak.Server.Quarantine.{UploadEvent, Visit, quarantine_worker}
use oblak.Server.Upload.{Part, Uploaded, upload_lambda}
use oblak.Server.Extraction.{extraction_worker}
use oblak.Server.Handlers.{Executed, execute_lambda}
use oblak.Vm.Service
use oblak.Vm.Service.{ExecuteMessage, ServiceCalls, settle_prepare, execute}
use oblak.Vm.Runner.{RunError}

-- The buses have one subscriber each. The queues between the programs keep their messages, so that
-- one can be delivered again; `claimed` are the builds that some worker runs or has run, and
-- `analysed` the deliveries that the analyzer has gone through.
pub record Platform : Type 0 where
  pub functions : Functions
  pub invocations : Invocations
  pub uploads : List UploadEvent
  pub events : List UploadEvent
  pub messages : List FunctionMessage
  pub quarantine : List Bytes
  pub promoted : List Bytes
  pub workspace : Workspace
  pub analysed : List Delivery
  pub builds : List BuildMessage
  pub claimed : List BuildMessage
  pub executions : List ExecuteMessage

abbrev pub empty : Platform
empty = record {
  functions = [];
  invocations = [];
  uploads = [];
  events = [];
  messages = [];
  quarantine = [];
  promoted = [];
  workspace = purged;
  analysed = [];
  builds = [];
  claimed = [];
  executions = [];
}

abbrev pub first_channel : List (List UploadEvent) → List UploadEvent
first_channel [] = []
first_channel (ch ∷ subscribers) = ch

-- The analyzer's part of the platform, with the files that it has written.
abbrev pub analyzer_world : Platform → Workspace → Listener.World
analyzer_world s ws = record {
  functions = s.functions;
  quarantine = s.quarantine;
  promoted = s.promoted;
  builds = s.builds;
  workspace = ws;
}

abbrev pub with_analyzer : Platform → Listener.World → Platform
with_analyzer s w = record s {
  functions = w.functions;
  quarantine = w.quarantine;
  promoted = w.promoted;
  builds = w.builds;
  workspace = w.workspace;
}

-- A worker goes on with the builds that it claims.
abbrev pub claim : Result DbError Bool → BuildMessage → List BuildMessage → List BuildMessage
claim (ok true) b claimed = b ∷ claimed
claim _ b claimed = claimed

abbrev pub vm_world : Platform → Service.World → Service.World
vm_world s w = record w { functions = s.functions; invocations = s.invocations }

-- What the calls leave of the platform.
abbrev pub uploaded : Uploaded → Platform → Platform
uploaded r s = record s {
  functions = r.functions;
  uploads = first_channel r.subscribers;
  quarantine = map (λ o. o.0) r.objects ++ s.quarantine;
}

abbrev pub checked : List UploadEvent → Functions × List UploadEvent → Platform → Platform
checked rest (t, passed) s = record s {
  functions = t;
  uploads = rest;
  events = first_channel (publish_all passed (s.events ∷ []));
}

abbrev pub passed_on : List UploadEvent → List FunctionMessage × Bool → Platform → Platform
passed_on rest (sent, _) s = record s { events = rest; messages = s.messages ++ sent }

abbrev pub with_status : Bool → Uuid → Status → Platform → Platform
with_status up id to s = record s { functions = (update_function_status up id to s.functions).0 }

abbrev pub analysed_with : Delivery → FunctionMessage → Workspace × Outcome → Platform → Platform
analysed_with d m (ws, out) s =
    with_analyzer (record s { analysed = d ∷ s.analysed })
      (after_analysis d m out (analyzer_world s ws)).0

abbrev pub claimed_with : BuildMessage → Functions × Result DbError Bool → Platform → Platform
claimed_with b (t, r) s = record s { functions = t; claimed = claim r b s.claimed }

abbrev pub requested : Executed → Platform → Platform
requested r s = record s { invocations = r.invocations; executions = s.executions ++ r.published }

pub data Step (s : Platform) : Platform → Type 0 where
  uploads_file :
      (put_ok up : Bool) (unique : Bytes) (fresh : Uuid) (user : Option Uuid)
      (parts : List (Option Part))
      → Step s (
          uploaded (upload_lambda put_ok up unique fresh user parts s.functions (s.uploads ∷ [])) s)
  checks_upload :
      (v : Visit) (rest : List UploadEvent)
      → s.uploads ≡ v.event ∷ rest
      → Step s (checked rest (quarantine_worker (v ∷ []) s.functions) s)
  passes_upload :
      (sent : UploadEvent → Bool) (e : UploadEvent) (rest : List UploadEvent)
      → s.events ≡ e ∷ rest
      → Step s (passed_on rest (extraction_worker sent (e ∷ [])) s)
  server_restarts : Step s (record s { uploads = []; events = [] })
  lands :
      (up : Bool) (m : FunctionMessage)
      → Memᴰ m s.messages
      → Step s (with_status up m.function_id Function.scanning s)
  analyses :
      (d : Delivery) (m : FunctionMessage)
      → d.payload ≡ some m
      → Memᴰ m s.messages
      → Step s (analysed_with d m (analyze_file d.services d.id_text s.workspace) s)
  analyzer_restarts : Step s (record s { workspace = purged })
  claims_build :
      (up : Bool) (b : BuildMessage)
      → Memᴰ b s.builds
      → Step s (
          claimed_with b
            (update_function_status_if up b.function_id Function.verified
              Function.preparing_environment s.functions)
            s)
  settles_build :
      (up : Bool) (drive_name : Bytes) (b : BuildMessage) (e : Option RunError) (w : Service.World)
      → Memᴰ b s.claimed
      → Step s (record s {
        functions = (settle_prepare up drive_name b.function_id e (vm_world s w)).0.functions;
      })
  fails_build :
      (up : Bool) (b : BuildMessage)
      → Memᴰ b s.builds
      → Step s (with_status up b.function_id Function.failed s)
  requests_run :
      (up publish_ok : Bool) (body : Option Bytes) (id : Option Uuid) (fresh : Uuid) (now : ℕ)
      → Step s
          (requested (execute_lambda up publish_ok body id fresh now s.functions s.invocations) s)
  runs :
      (c : ServiceCalls) (m : ExecuteMessage) (w : Service.World)
      → Memᴰ m s.executions
      → Step s (record s { invocations = (execute c m (vm_world s w)).0.invocations })

pub data Reach (s : Platform) : Platform → Type 0 where
  here : Reach s s
  next : {t u : Platform} → Reach s t → Step t u → Reach s u

-- The number of the steps.
unfoldable pub steps : {s t : Platform} → Reach s t → ℕ
steps here = 0
steps (next r st) = suc (steps r)
