-- ===== src/Server/Handlers.antt =====
-- internal/server/handler: the operations of the HTTP interface that read and change the stores.
-- `user` is what the middleware left in the context: the user of the request, if any.
pub mod Owners
pub mod Runs
use mathlib.Core.List.{map}
use oblak.Prelude.{
  ltb, if◌then◌else◌, length, Result, err, ok, ◌>>=◌, ℕ, Bool, Option, none, some, List, [], ◌∷◌,
}
use oblak.Text.{Bytes}
use oblak.Sql.{DbError, no_rows, Uuid}
use oblak.Function
use oblak.Function.{Status, Function, Functions}
use oblak.Invocation
use oblak.Invocation.{Invocation, Invocations}
use oblak.Vm.Service.{ExecuteMessage}
use oblak.Server.Logs.{LogLine, LogError}
use oblak.Server.Reads.{
  get_invocations_for_user_and_function, get_invocation_details_for_user,
  FunctionWithLatestInvocation, get_functions_by_user_with_latest_execution, last_end,
}

pub data HttpError : Type 0 where
  no_user bad_payload payload_too_large bad_id no_drive : HttpError
  store_error : DbError → HttpError
  log_error : LogError → HttpError
  publish_error : HttpError
  -- A read through a nil pointer, which ends the handler.
  panicked : HttpError

-- FunctionEntity: the identifier, the status and the last execution.
pub record FunctionEntity : Type 0 where
  pub id : Uuid
  pub status : Function.Status
  pub last_execution : Option ℕ

abbrev entity : FunctionWithLatestInvocation → FunctionEntity
entity f = record { id = f.function_id; status = f.status; last_execution = last_end f.latest }

abbrev or_store {ℓ} : {A : Type ℓ} → Result DbError A → Result HttpError A
or_store (err e) = err (store_error e)
or_store (ok a) = ok a

unfoldable pub get_user_functions :
    Bool → Option Uuid → Functions → Invocations → Result HttpError (List FunctionEntity)
get_user_functions up none fs t = err no_user
get_user_functions up (some user) fs t = do
  rows ← or_store (get_functions_by_user_with_latest_execution up user fs t)
  ok (map entity rows)

pub record InvocationResponse : Type 0 where
  pub invocation_id : Uuid
  pub status : Invocation.Status
  pub invocation_time : ℕ
  pub end_time : Option ℕ

-- The time is read through a pointer.
abbrev pub response_at : Invocation.Invocation → Option ℕ → Result HttpError InvocationResponse
response_at i none = err panicked
response_at i (some time) = ok (record {
  invocation_id = i.invocation_id;
  status = i.status;
  invocation_time = time;
  end_time = i.end_time;
})

abbrev pub response : Invocation.Invocation → Result HttpError InvocationResponse
response i = response_at i i.invocation_time

unfoldable pub create_invocation_response : Invocations → Result HttpError (List InvocationResponse)
create_invocation_response [] = ok []
create_invocation_response (i ∷ t) = do
  r ← response i
  rest ← create_invocation_response t
  ok (r ∷ rest)

unfoldable pub get_function_invocations :
    Bool → Option Uuid → Uuid → Functions → Invocations → Result HttpError (List InvocationResponse)
get_function_invocations up none function_id fs t = err no_user
get_function_invocations up (some user) function_id fs t = do
  rows ← or_store (get_invocations_for_user_and_function up user function_id fs t)
  create_invocation_response rows

pub record Details : Type 0 where
  pub invocation : InvocationResponse
  pub logs : List LogLine

abbrev pub or_log : Result LogError (List LogLine) → Result HttpError (List LogLine)
or_log (err e) = err (log_error e)
or_log (ok ls) = ok ls

-- extractLogs; `get_logs` is GetLogsByInvocationId.
abbrev pub extract_logs :
    (Bytes → Result LogError (List LogLine)) → Option Bytes → Result HttpError (List LogLine)
extract_logs get_logs none = ok []
extract_logs get_logs (some path) = or_log (get_logs path)

-- The zero Invocation has no path of a log and no time.
unfoldable pub details_of :
    (Bytes → Result LogError (List LogLine))
    → Option Invocation.Invocation
    → Result HttpError Details
details_of get_logs none = err panicked
details_of get_logs (some i) = do
  logs ← extract_logs get_logs i.log_path
  r ← response i
  ok (record { invocation = r; logs = logs })

unfoldable pub get_invocation_details :
    (Bytes → Result LogError (List LogLine))
    → Bool
    → Option Uuid
    → Uuid
    → Functions
    → Invocations
    → Result HttpError Details
unfolding details_of
get_invocation_details get_logs up none invocation_id fs t = err no_user
get_invocation_details get_logs up (some user) invocation_id fs t = do
  found ← or_store (get_invocation_details_for_user up user invocation_id fs t)
  details_of get_logs found

-- GetFunctionStatus: 200, 404 or 400. The store wraps pgx.ErrNoRows as ErrFunctionNotFound only where
-- it is sql.ErrNoRows.
pub data StatusReply : Type 0 where
  status_ok : Function.Status → StatusReply
  not_found bad_request : StatusReply

abbrev pub max_payload_size : ℕ
max_payload_size = 1048576

unfoldable pub get_function_status : Bool → Uuid → Functions → StatusReply
get_function_status up id fs = elim (Function.get_function_status_by_id up id fs) [
  | ok s ↦ status_ok s
  | err no_rows ↦ not_found
  | err _ ↦ bad_request
]

-- What a request to execute leaves: the invocations, the messages for the machines and the reply.
pub record Executed : Type 0 where
  pub invocations : Invocations
  pub published : List ExecuteMessage
  pub reply : Result HttpError (Unit {0})

abbrev pub refused : Invocations → HttpError → Executed
refused t e = record { invocations = t; published = []; reply = err e }

-- From the check of the drive to the return; `publish_ok` is the result of the publisher.
unfoldable pub publish_execution :
    Bool → Bytes → Bytes → Option Bytes → Invocations → Invocation.Invocation → Executed
publish_execution publish_ok payload archive none t inv = refused t no_drive
publish_execution publish_ok payload archive (some drive) t inv =
    if publish_ok
    then record {
      invocations = t;
      published =
          record {
            invocation_id = inv.invocation_id;
            code_object_name = archive;
            dependencies_object_name = drive;
            payload = payload;
          }
          ∷ [];
      reply = ok tt;
    }
    else refused t publish_error

abbrev pub after_create :
    Bool → Bytes → Function.Function → Invocations × Result DbError Invocation.Invocation → Executed
after_create publish_ok payload f (t, err e) = refused t (store_error e)
after_create publish_ok payload f (t, ok inv) =
    publish_execution publish_ok payload f.archive_path f.drive_path t inv

abbrev pub with_function :
    Bool → Bool → Bytes → Uuid → ℕ → Invocations → Result DbError Function.Function → Executed
with_function up publish_ok payload fresh now t (err e) = refused t (store_error e)
with_function up publish_ok payload fresh now t (ok f) =
    after_create publish_ok payload f (Invocation.create_invocation up fresh f.function_id now t)

abbrev with_id : Bool → Bool → Bytes → Uuid → ℕ → Functions → Invocations → Option Uuid → Executed
with_id up publish_ok payload fresh now fs t none = refused t bad_id
with_id up publish_ok payload fresh now fs t (some id) =
    with_function up publish_ok payload fresh now t (Function.get_function_by_id up id fs)

-- ExecuteLambda; `body` is the marshalled body, `id` the parsed identifier, `fresh` and `now` the
-- values of uuid.New() and time.Now(). The path is public, so there is no user.
unfoldable pub execute_lambda :
    Bool → Bool → Option Bytes → Option Uuid → Uuid → ℕ → Functions → Invocations → Executed
unfolding publish_execution
execute_lambda up publish_ok none id fresh now fs t = refused t bad_payload
execute_lambda up publish_ok (some payload) id fresh now fs t =
    if ltb max_payload_size (length payload)
    then refused t payload_too_large
    else with_id up publish_ok payload fresh now fs t id
