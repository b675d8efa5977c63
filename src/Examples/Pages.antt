-- ===== src/Examples/Pages.antt =====
-- The HTTP operations on concrete tables.
use oblak.Prelude.{Result, ok, ℕ, ◌≡◌, refl, true, Option, none, some, List, [], ◌∷◌}
use oblak.Text.{Bytes, codes, bytes_eq}
use oblak.Sql.{Uuid, select, select_one, insert}
use oblak.Function
use oblak.Function.{Function, Functions}
use oblak.Invocation
use oblak.Invocation.{Invocation, Invocations}
use oblak.Server.Logs.{LogLine, LogError}
use oblak.Server.Reads.{order_by_end, get_invocation_details_for_user}
use oblak.Server.Handlers.{Details, details_of, get_invocation_details, execute_lambda}
use oblak.Server.Handlers.Owners.{AreOwned, get_invocation_details-AreOwned}
use oblak.Server.Handlers.Runs.{AllNames, execute_lambda-AllNames}
use oblak.Server.Upload.{Part, parse_uploaded_file, upload_lambda}
use oblak.Server.Upload.Kept.{IsKept, upload_lambda-IsKept}

abbrev undriven : Function.Function
undriven = record {
  function_id = 8;
  user_id = 2;
  status = Function.scanning;
  archive_path = codes "b.tar.gz";
  drive_path = none;
}

-- Function 7 of user 1 is ready; function 8 of user 2 has no drive.
abbrev functions : Functions
functions =
    record {
      function_id = 7;
      user_id = 1;
      status = Function.ready;
      archive_path = codes "a.tar.gz";
      drive_path = some (codes "a.ext4");
    }
    ∷ undriven
    ∷ []

abbrev ran : Uuid → Option ℕ → Invocation.Invocation
ran id end_time = record {
  invocation_id = id;
  function_id = 7;
  status = Invocation.done;
  invocation_time = some 10;
  end_time = end_time;
  log_path = none;
}

abbrev invocations : Invocations
invocations = ran 20 (some 12) ∷ ran 21 (some 15) ∷ []

abbrev no_logs : Bytes → Result LogError (List LogLine)
no_logs _ = ok []

abbrev answered : Details
answered = record {
  invocation = record {
    invocation_id = 21;
    status = Invocation.done;
    invocation_time = 10;
    end_time = some 15;
  };
  logs = [];
}

get_invocation_details-AreOwned_example : AreOwned no_logs 1 21 functions invocations answered
get_invocation_details-AreOwned_example =
    get_invocation_details-AreOwned no_logs true 1 21 functions invocations (
      unfold get_invocation_details in
      unfold get_invocation_details_for_user in
      unfold order_by_end in unfold select in unfold select_one in unfold details_of in refl)

execute_lambda-AllNames_example :
    AllNames 7 functions
      (codes "{}")
      (execute_lambda true true (some (codes "{}")) (some 7) 30 50 functions invocations)
execute_lambda-AllNames_example =
    execute_lambda-AllNames true true (codes "{}") 7 30 50 functions invocations

abbrev form : List (Option Part)
form =
    some (record { form_name = codes "note"; file_name = []; content = codes "x" })
    ∷ some (record {
      form_name = codes "function";
      file_name = codes "f.tar.gz";
      content = codes "gz";
    })
    ∷ []

upload_lambda-IsKept_example :
    let r = upload_lambda true true (codes "u") 30 (some 1) form functions ([] ∷ []) in
    IsKept 1 ([] ∷ []) r r.reply
upload_lambda-IsKept_example =
    upload_lambda-IsKept true true (codes "u") 30 1 form functions ([] ∷ [])

upload_test :
    (upload_lambda true true (codes "u") 30 (some 1) form functions []).objects
    ≡ (codes "u-f.tar.gz", codes "gz") ∷ []
unfolding upload_lambda parse_uploaded_file bytes_eq Function.create_function insert select_one
upload_test = refl
