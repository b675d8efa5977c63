-- ===== src/System/Keyed.antt =====
-- The identifiers of the functions are distinct in every reachable state.
use mathlib.Core.Path.{subst}
use oblak.Prelude.{
  if_both, is_some, Result, ok, err, refl, sym, inl, inr, Bool, true, false, Option, none, some,
  List, [], ◌∷◌,
}
use oblak.Text.{Bytes}
use oblak.Sql.{DbError, Uuid, IsKeyed, update-IsKeyed, insert-IsKeyed}
use oblak.Function
use oblak.Function.{Function, Functions, key, is_status}
use oblak.Function.Laws.{update_status-IsKeyed}
use oblak.Analyzer.Orchestrator.{analyze_file}
use oblak.Analyzer.Listener.Effects.{Assigns, after_analysis-Assigns}
use oblak.Analyzer.Listener.{Delivery, FunctionMessage}
use oblak.Server.Quarantine.{UploadEvent, Visit, status_extracted, quarantine_worker}
use oblak.Server.Upload.{
  Part, ParsedFile, UploadError, after_save, with_file, upload_lambda, parse_uploaded_file,
  object_name,
}
use oblak.Vm.Runner.{RunError}
use oblak.Vm.Service
use oblak.Vm.Service.{settle_prepare, is_user_error}
use oblak.System.{
  Platform, empty, analyzer_world, vm_world, Step, uploads_file, checks_upload, passes_upload,
  server_restarts, lands, analyses, analyzer_restarts, claims_build, settles_build, fails_build,
  requests_run, runs, Reach, here, next,
}

abbrev pub AreKeyed : Functions → Type 0
AreKeyed t = IsKeyed key t

pub status_if-AreKeyed :
    (up : Bool) (id : Uuid) (from to : Function.Status) (t : Functions)
    → AreKeyed t
    → AreKeyed (Function.update_function_status_if up id from to t).0
unfolding Function.update_function_status_if
status_if-AreKeyed true id from to t k =
    update-IsKeyed key id (λ f. is_status f.status from) (λ f. record f { status = to }) (λ f. refl)
      t k
status_if-AreKeyed false id from to t k = k

drive-AreKeyed :
    (up : Bool) (id : Uuid) (to : Function.Status) (path : Bytes) (t : Functions)
    → AreKeyed t
    → AreKeyed (Function.update_function_status_and_drive_path up id to path t).0
unfolding Function.update_function_status_and_drive_path
drive-AreKeyed true id to path t k =
    update-IsKeyed key id (λ f. true) (λ f. record f { status = to; drive_path = some path })
      (λ f. refl) t k
drive-AreKeyed false id to path t k = k

create-AreKeyed :
    (up : Bool) (fresh user : Uuid) (s : Function.Status) (path : Bytes) (t : Functions)
    → AreKeyed t
    → AreKeyed (Function.create_function up fresh user s path t).0
unfolding Function.create_function
create-AreKeyed true fresh user s path t k = insert-IsKeyed key _ t k
create-AreKeyed false fresh user s path t k = k

after_save-AreKeyed :
    (objects : List (Bytes × Bytes)) (chs : List (List UploadEvent))
    (p : Functions × Result DbError Function.Function)
    → AreKeyed p.0
    → AreKeyed (after_save objects chs p).functions
after_save-AreKeyed objects chs (t, err e) k = k
after_save-AreKeyed objects chs (t, ok f) k = k

with_file-AreKeyed :
    (put_ok up : Bool) (unique : Bytes) (fresh user : Uuid) (t : Functions)
    (chs : List (List UploadEvent)) (file : Result UploadError ParsedFile)
    → AreKeyed t
    → AreKeyed (with_file put_ok up unique fresh user t chs file).functions
with_file-AreKeyed put_ok up unique fresh user t chs (err e) k = k
with_file-AreKeyed false up unique fresh user t chs (ok file) k = k
with_file-AreKeyed true up unique fresh user t chs (ok file) k =
    let name = object_name unique file in
    after_save-AreKeyed ((name, file.reader) ∷ []) chs
      (Function.create_function up fresh user Function.quarantined name t)
      (create-AreKeyed up fresh user Function.quarantined name t k)

upload_lambda-AreKeyed :
    (put_ok up : Bool) (unique : Bytes) (fresh : Uuid) (user : Option Uuid)
    (parts : List (Option Part)) (t : Functions) (chs : List (List UploadEvent))
    → AreKeyed t
    → AreKeyed (upload_lambda put_ok up unique fresh user parts t chs).functions
unfolding upload_lambda
upload_lambda-AreKeyed put_ok up unique fresh none parts t chs k = k
upload_lambda-AreKeyed put_ok up unique fresh (some user) parts t chs k =
    with_file-AreKeyed put_ok up unique fresh user t chs (parse_uploaded_file parts) k

checked-AreKeyed :
    (v : Visit) (t : Functions) → AreKeyed t → AreKeyed (quarantine_worker (v ∷ []) t).0
unfolding quarantine_worker
checked-AreKeyed v t k =
    let (u, e) = Function.update_function_status v.up v.event.function_id (status_extracted v) t in
    let keyed : AreKeyed u =
      update_status-IsKeyed v.up v.event.function_id (status_extracted v) t k in
    if_both (λ (r : Functions × List UploadEvent). AreKeyed r.0) (is_some e) keyed keyed

Assigns-AreKeyed :
    (d : Delivery) (m : FunctionMessage) (t t' : Functions)
    → Assigns d m t t'
    → AreKeyed t
    → AreKeyed t'
Assigns-AreKeyed d m t t' (inl e) k = subst AreKeyed (sym e) k
Assigns-AreKeyed d m t t' (inr (s, unready, e)) k =
    subst AreKeyed (sym e) (update_status-IsKeyed d.status_up m.function_id s t k)

settled-AreKeyed :
    (up : Bool) (name : Bytes) (id : Uuid) (e : Option RunError) (w : Service.World)
    → AreKeyed w.functions
    → AreKeyed (settle_prepare up name id e w).0.functions
settled-AreKeyed up name id none w k = drive-AreKeyed up id Function.ready name w.functions k
settled-AreKeyed up name id (some e) w k =
    if_both (λ (r : Service.World × Option Service.ServiceError). AreKeyed r.0.functions)
      (is_user_error e) (update_status-IsKeyed up id Function.failed w.functions k)
      (update_status-IsKeyed up id Function.verified w.functions k)

pub Step-AreKeyed : {s t : Platform} → Step s t → AreKeyed s.functions → AreKeyed t.functions
Step-AreKeyed {s} (uploads_file put_ok up unique fresh user parts) k =
    upload_lambda-AreKeyed put_ok up unique fresh user parts s.functions (s.uploads ∷ []) k
Step-AreKeyed {s} (checks_upload v rest e) k = checked-AreKeyed v s.functions k
Step-AreKeyed (passes_upload sent e rest at) k = k
Step-AreKeyed server_restarts k = k
Step-AreKeyed {s} (lands up m among) k =
    update_status-IsKeyed up m.function_id Function.scanning s.functions k
Step-AreKeyed {s} (analyses d m decoded among) k =
    let (ws, out) = analyze_file d.services d.id_text s.workspace in
    Assigns-AreKeyed d m s.functions _ (after_analysis-Assigns d m out (analyzer_world s ws)) k
Step-AreKeyed analyzer_restarts k = k
Step-AreKeyed {s} (claims_build up b among) k =
    status_if-AreKeyed up b.function_id Function.verified Function.preparing_environment s.functions
      k
Step-AreKeyed {s} (settles_build up name b e w among) k =
    settled-AreKeyed up name b.function_id e (vm_world s w) k
Step-AreKeyed {s} (fails_build up b among) k =
    update_status-IsKeyed up b.function_id Function.failed s.functions k
Step-AreKeyed (requests_run up publish_ok body id fresh now) k = k
Step-AreKeyed (runs c m w among) k = k

pub Reach-AreKeyed : {s : Platform} → Reach empty s → AreKeyed s.functions
Reach-AreKeyed here = tt
Reach-AreKeyed (next r st) = Step-AreKeyed st (Reach-AreKeyed r)
