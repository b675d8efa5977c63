-- ===== src/Examples/Platforms.antt =====
-- A function on its way through the programs, from its upload to its execution.
use mathlib.Core.List.{Memᴰ}
use oblak.Prelude.{◌≡◌, refl, true, none, some, [], ◌∷◌}
use oblak.Text.{codes, bytes_eq, has_prefix, split, join}
use oblak.Sql.{Uuid, insert, select_one, update, affected}
use oblak.Function
use oblak.Function.{
  Function, Functions, row, status_of, get_function_by_id, create_function, update_function_status,
  update_function_status_if, update_function_status_and_drive_path,
}
use oblak.Analyzer.Listener.{Delivery, BuildMessage, after_analysis, process_message}
use oblak.Analyzer.Listener.Gate.{Cleared}
use oblak.Analyzer.Orchestrator.{analyze_file}
use oblak.Server.Quarantine.{Visit, quarantine_worker, extract_from_quarantine, UploadEvent}
use oblak.Server.Upload.{Part, upload_lambda}
use oblak.Server.Bus.{publish, publish_all}
use oblak.Server.Extraction.{create_message, extraction_worker}
use oblak.Server.Handlers.{execute_lambda}
use oblak.Vm.Service
use oblak.Vm.Service.{ExecuteMessage}
use oblak.System.{
  Platform, empty, analyzer_world, uploaded, checked, passed_on, analysed_with, claimed_with,
  requested, vm_world, Step, uploads_file, checks_upload, passes_upload, analyses, claims_build,
  settles_build, requests_run, Reach, here, next,
}
use oblak.System.Tables.{is_served}
use oblak.System.Calls.{GetsTo, GetsToTable, read_build, calls-Reach}
use oblak.Vm.Queue.{handle_build}
use oblak.System.Gated.{Reach-gated}
use oblak.Examples.Messages.{clean_services}
use oblak.Examples.Handlers
use oblak.Server.Extractor.{unzip}
use oblak.Invocation.{create_invocation}
use oblak.FilePath.{is_abs, push, clean, join_path, dir}
use oblak.Analyzer.Unzipper.{is_inside, extract_entry, extract}

abbrev part : Part
part = record {
  form_name = codes "function";
  file_name = codes "code.tar.gz";
  content = codes "...";
}

abbrev event : UploadEvent
event = record {
  function_id = 8;
  user_id = 1;
  bucket = codes "oblak-quarantine";
  path = codes "u-code.tar.gz";
}

abbrev visit : Visit
visit = record {
  event = event;
  get_ok = true;
  gzip_ok = true;
  at_end = true;
  headers = [];
  up = true;
}

abbrev delivery : Delivery
delivery = record {
  payload = some (create_message event);
  services = clean_services;
  id_text = codes "8";
  land_up = true;
  status_up = true;
  copy_ok = true;
  remove_ok = true;
  publish_ok = true;
}

abbrev build : BuildMessage
build = record { function_id = 8; code_object_name = codes "u-code.tar.gz" }

abbrev after_upload : Platform
after_upload =
    uploaded (upload_lambda true true (codes "u") 8 (some 1) (some part ∷ []) [] ([] ∷ [])) empty

uploads_step : Step empty after_upload
uploads_step = uploads_file true true (codes "u") 8 (some 1) (some part ∷ [])

abbrev after_check : Platform
after_check = checked [] (quarantine_worker (visit ∷ []) after_upload.functions) after_upload

check_step : Step after_upload after_check
unfolding upload_lambda create_function insert select_one publish bytes_eq
check_step = checks_upload visit [] refl

abbrev after_pass : Platform
after_pass = passed_on [] (extraction_worker (λ e. true) (event ∷ [])) after_check

pass_step : Step after_check after_pass
unfolding upload_lambda create_function insert select_one publish bytes_eq quarantine_worker
    update_function_status publish_all
pass_step = passes_upload (λ e. true) event [] refl

message_sent : Memᴰ (create_message event) after_pass.messages
unfolding extraction_worker
message_sent = Memᴰ.head refl

abbrev analysed : Platform
analysed =
    analysed_with delivery (create_message event)
      (analyze_file clean_services (codes "8") after_pass.workspace) after_pass

analysis_step : Step after_pass analysed
analysis_step = analyses delivery (create_message event) refl message_sent

build_asked : Memᴰ build analysed.builds
unfolding after_analysis analyze_file extract extract_entry clean join_path push bytes_eq split join
    is_abs has_prefix is_inside dir update_function_status upload_lambda create_function insert
    select_one quarantine_worker
build_asked = Memᴰ.head refl

abbrev claimed : Platform
claimed =
    claimed_with build
      (update_function_status_if true 8 Function.verified Function.preparing_environment
        analysed.functions)
      analysed

claim_step : Step analysed claimed
claim_step = claims_build true build build_asked

build_claimed : Memᴰ build claimed.claimed
unfolding after_analysis analyze_file extract extract_entry clean join_path push bytes_eq split join
    is_abs has_prefix is_inside dir update_function_status upload_lambda create_function insert
    select_one quarantine_worker extract_from_quarantine update_function_status_if update affected
    unzip
build_claimed = Memᴰ.head refl

abbrev settled : Platform
settled = record claimed {
  functions =
      (Service.settle_prepare true (codes "d.ext4") 8 none
        (vm_world claimed Handlers.world)).0.functions;
}

settle_step : Step claimed settled
settle_step = settles_build true (codes "d.ext4") build none Handlers.world build_claimed

abbrev executed : Platform
executed =
    requested
      (execute_lambda true true (some (codes "{}")) (some 8) 20 100 settled.functions
        settled.invocations)
      settled

request_step : Step settled executed
request_step = requests_run true true (some (codes "{}")) (some 8) 20 100

way : Reach empty executed
way =
    next
      (next
        (next (next (next (next (next here uploads_step) check_step) pass_step) analysis_step)
          claim_step)
        settle_step)
      request_step

-- The function is served, and a machine is asked to run it.
executed_test :
    (status_of 8 executed.functions ≡ some Function.ready)
    × (executed.executions
        ≡ record {
          invocation_id = 20;
          code_object_name = codes "u-code.tar.gz";
          dependencies_object_name = codes "d.ext4";
          payload = codes "{}";
        }
          ∷ [])
unfolding after_analysis analyze_file extract extract_entry clean join_path push bytes_eq split join
    is_abs has_prefix is_inside dir update_function_status upload_lambda create_function insert
    select_one quarantine_worker extract_from_quarantine update_function_status_if update affected
    update_function_status_and_drive_path execute_lambda unzip get_function_by_id create_invocation
executed_test = (refl, refl)

Reach-gated_example :
    ((id : Uuid) (f : Function.Function)
      → row id executed.functions ≡ some f
      → is_served f ≡ true
      → Cleared executed.analysed id f.archive_path)
    × ((m : ExecuteMessage)
        → Memᴰ m executed.executions
        → (id : Uuid) × Cleared executed.analysed id m.code_object_name)
Reach-gated_example = Reach-gated way

calls-Reach_example :
    GetsTo analysed (process_message delivery (analyzer_world analysed analysed.workspace)).0
    × GetsToTable analysed
        (handle_build
          (λ s. some (read_build build))
          (codes "{}")
          Handlers.calls
          (vm_world analysed Handlers.world)).0.functions
calls-Reach_example =
    calls-Reach analysed delivery (create_message event) (λ s. some (read_build build)) (codes "{}")
      build Handlers.calls Handlers.world refl message_sent refl build_asked
