-- ===== src/Server/Quarantine.antt =====
-- internal/server/extractor/service.go: the worker that checks the uploads in quarantine.
use oblak.Prelude.{
  ◌==◌, if◌then◌else◌, is_some, All, ◌≡◌, refl, ap, ◌∙◌, Bool, true, false, not, ◌&&◌, Option, List,
  [], ◌∷◌, ◌++◌,
}
use oblak.Text.{Bytes}
use oblak.Sql.{Uuid}
use oblak.Function.{Status, extracted, failed, Functions, update_function_status, status_of}
use oblak.Function.Laws.{given, status-update}
use oblak.Server.Extractor.{Header, unzip}

-- QuarantineEvent, and ExtractionEvent with the same fields; the timestamps are left out.
pub record UploadEvent : Type 0 where
  pub function_id : Uuid
  pub user_id : Uuid
  pub bucket : Bytes
  pub path : Bytes

-- What the worker meets with one event: the archive as Unzip reads it, or no object, and whether the
-- database executes the statement.
pub record Visit : Type 0 where
  pub event : UploadEvent
  pub get_ok : Bool
  pub gzip_ok : Bool
  pub at_end : Bool
  pub headers : List Header
  pub up : Bool

-- ExtractFromQuarantine: whether it returns no error.
unfoldable pub extract_from_quarantine : Visit → Bool
extract_from_quarantine v = v.get_ok && not (is_some (unzip v.gzip_ok v.at_end v.headers))

abbrev pub status_extracted : Visit → Status
status_extracted v = if extract_from_quarantine v then extracted else failed

-- The worker's loop: the functions, and the events that it publishes. It returns at the first failure
-- of the database.
unfoldable pub quarantine_worker : List Visit → Functions → Functions × List UploadEvent
quarantine_worker [] t = (t, [])
quarantine_worker (v ∷ vs) t =
    let (t', e) = update_function_status v.up v.event.function_id (status_extracted v) t in
    let rest = quarantine_worker vs t' in if is_some e then (t', []) else (rest.0, v.event ∷ rest.1)

abbrev pub events_of : List Visit → List UploadEvent
events_of [] = []
events_of (v ∷ vs) = v.event ∷ events_of vs

-- The status that the visits leave a function with, where `s` is the one before: that of its last visit.
abbrev pub last_status : Uuid → List Visit → Option Status → Option Status
last_status id [] s = s
last_status id (v ∷ vs) s =
    last_status id vs (if v.event.function_id == id then given (status_extracted v) s else s)

worker_step : Bool → Visit → List Visit → Functions → Functions × List UploadEvent
worker_step up v vs t =
    let (t', e) = update_function_status up v.event.function_id (status_extracted v) t in
    let rest = quarantine_worker vs t' in if is_some e then (t', []) else (rest.0, v.event ∷ rest.1)

pub worker-up :
    (v : Visit) (vs : List Visit) (t : Functions)
    → v.up ≡ true
    → let rest =
        quarantine_worker vs
          (update_function_status true v.event.function_id (status_extracted v) t).0 in
      quarantine_worker (v ∷ vs) t ≡ (rest.0, v.event ∷ rest.1)
unfolding quarantine_worker worker_step update_function_status
worker-up v vs t h = ap (λ b. worker_step b v vs t) h

worker-down :
    (v : Visit) (vs : List Visit) (t : Functions)
    → v.up ≡ false
    → quarantine_worker (v ∷ vs) t ≡ (t, [])
unfolding quarantine_worker worker_step update_function_status
worker-down v vs t h = ap (λ b. worker_step b v vs t) h

-- Up to the first statement that the database does not execute, every event is passed on, in order and
-- whether or not its archive was accepted, and each function in the table has the status of its last
-- event: EXTRACTED where the archive was accepted and FAILED where it was not. No event behind that
-- statement is passed on.
pub quarantine_worker_lem :
    (before : List Visit) (t : Functions)
    → All (λ v. v.up ≡ true) before
    → ((id : Uuid)
        → status_of id (quarantine_worker before t).0 ≡ last_status id before (status_of id t))
      × ((v : Visit) (behind : List Visit)
          → v.up ≡ false
          → (quarantine_worker (before ++ v ∷ behind) t).1 ≡ events_of before)
quarantine_worker_lem [] t h = (
  λ id. unfold quarantine_worker in refl,
  λ v behind down. ap (λ r. r.1) (worker-down v behind t down),
)
quarantine_worker_lem (x ∷ before) t h =
    let t' = (update_function_status true x.event.function_id (status_extracted x) t).0 in
    let (status, passed) = quarantine_worker_lem before t' h.1 in
    (
      λ id.
          ap (λ (r : Functions × List UploadEvent). status_of id r.0) (worker-up x before t h.0)
          ∙ status id
          ∙ ap (last_status id before)
              (status-update x.event.function_id t (status_extracted x) id),
      λ v behind down.
          ap (λ r. r.1) (worker-up x (before ++ v ∷ behind) t h.0)
          ∙ ap (◌∷◌ x.event) (passed v behind down),
    )
