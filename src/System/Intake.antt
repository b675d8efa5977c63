-- ===== src/System/Intake.antt =====
-- The server's calls keep what holds of the platform: an upload, its check, and its hand-over to the
-- analyzer.
use mathlib.Core.List.{Memᴰ}
use mathlib.Core.Path.{subst}
use oblak.Prelude.{
  if_both, Result, ok, err, ◌≡◌, refl, sym, ◌⊎◌, inl, inr, Bool, true, false, Option, none, some,
  List, [], ◌∷◌, ◌++◌, arith, is_some,
}
use oblak.Text.{Bytes}
use oblak.Sql.{DbError, Uuid}
use oblak.Function
use oblak.Function.{Function, Functions, row, is_status}
use oblak.Server.Bus.{publish, publish_all}
use oblak.Server.Quarantine.{
  UploadEvent, Visit, status_extracted, extract_from_quarantine, quarantine_worker,
}
use oblak.Server.Upload.{
  Part, Uploaded, ParsedFile, UploadError, event, after_save, with_file, upload_lambda,
  parse_uploaded_file, object_name,
}
use oblak.Server.Upload.Kept.{saved_row, create_function_cases}
use oblak.Server.Extraction.{create_message, extraction_worker}
use oblak.Analyzer.Listener.{FunctionMessage}
use oblak.System.{Platform, first_channel, uploaded, checked, passed_on}
use oblak.System.Tables.{Keeps, IsHarmless, IsHarmless-refl, create-IsHarmless}
use oblak.System.Sound.{
  Each, Each-nil, Each-cons, Each-append, Each-offer, Names-Keeps, IsNamed, IsNamedMessage, IsSound,
  moved_harmless, with_status-IsSound,
}

-- An upload changes the table by one row at most, and announces that row.
abbrev IsAnnounced : Functions → List UploadEvent → Uploaded → Type 0
IsAnnounced t ch r =
    IsHarmless t r.functions
    × (Each (IsNamed t) ch → Each (IsNamed r.functions) (first_channel r.subscribers))

unchanged-IsAnnounced :
    (t : Functions) (ch : List UploadEvent) (objects : List (Bytes × Bytes))
    (reply : Result UploadError Uuid)
    → IsAnnounced t ch
        (record { objects = objects; functions = t; subscribers = ch ∷ []; reply = reply })
unchanged-IsAnnounced t ch objects reply = (IsHarmless-refl t, λ h. h)

carried :
    (t u : Functions) (ch : List UploadEvent)
    → Keeps t u
    → Each (IsNamed t) ch
    → Each (IsNamed u) ch
carried t u ch k h e m = Names-Keeps t u e.function_id e.path k (h e m)

after_save-IsAnnounced :
    (t : Functions) (ch : List UploadEvent) (fresh user : Uuid) (name : Bytes)
    (objects : List (Bytes × Bytes)) (p : Functions × Result DbError Function.Function)
    → IsHarmless t p.0
    → ((e : DbError) × (p.1 ≡ err e))
      ⊎ ((p.1 ≡ ok (saved_row fresh user name))
          × (row fresh p.0 ≡ some (saved_row fresh user name)))
    → IsAnnounced t ch (after_save objects (ch ∷ []) p)
after_save-IsAnnounced t ch fresh user name objects (u, err e) h c = (h, carried t u ch h.0)
after_save-IsAnnounced t ch fresh user name objects (u, ok f) h (inl (e, c)) =
    absurd (ground (arith, c))
after_save-IsAnnounced t ch fresh user name objects (u, ok f) h (inr (c, stored)) =
    let same : f ≡ saved_row fresh user name = ground (arith, c) in
    let named : IsNamed u (event f) =
      subst (λ (g : Function.Function). IsNamed u (event g)) (sym same)
        (saved_row fresh user name, stored, refl) in
    (h, λ k. unfold publish in Each-offer (IsNamed u) (event f) ch named (carried t u ch h.0 k))

with_file-IsAnnounced :
    (put_ok up : Bool) (unique : Bytes) (fresh user : Uuid) (t : Functions) (ch : List UploadEvent)
    (file : Result UploadError ParsedFile)
    → IsAnnounced t ch (with_file put_ok up unique fresh user t (ch ∷ []) file)
with_file-IsAnnounced put_ok up unique fresh user t ch (err e) =
    unchanged-IsAnnounced t ch [] (err e)
with_file-IsAnnounced false up unique fresh user t ch (ok file) =
    unchanged-IsAnnounced t ch [] (err UploadError.put_failed)
with_file-IsAnnounced true up unique fresh user t ch (ok file) =
    let name = object_name unique file in
    after_save-IsAnnounced t ch fresh user name ((name, file.reader) ∷ [])
      (Function.create_function up fresh user Function.quarantined name t)
      (create-IsHarmless up fresh user name t) (create_function_cases up fresh user name t)

upload_lambda-IsAnnounced :
    (put_ok up : Bool) (unique : Bytes) (fresh : Uuid) (user : Option Uuid)
    (parts : List (Option Part)) (t : Functions) (ch : List UploadEvent)
    → IsAnnounced t ch (upload_lambda put_ok up unique fresh user parts t (ch ∷ []))
unfolding upload_lambda
upload_lambda-IsAnnounced put_ok up unique fresh none parts t ch =
    unchanged-IsAnnounced t ch [] (err UploadError.no_user)
upload_lambda-IsAnnounced put_ok up unique fresh (some user) parts t ch =
    with_file-IsAnnounced put_ok up unique fresh user t ch (parse_uploaded_file parts)

pub uploaded-IsSound :
    (s : Platform) (put_ok up : Bool) (unique : Bytes) (fresh : Uuid) (user : Option Uuid)
    (parts : List (Option Part))
    → IsSound s
    → IsSound
        (uploaded (upload_lambda put_ok up unique fresh user parts s.functions (s.uploads ∷ [])) s)
uploaded-IsSound s put_ok up unique fresh user parts h =
    let r = upload_lambda put_ok up unique fresh user parts s.functions (s.uploads ∷ []) in
    let (harmless, announced) =
      upload_lambda-IsAnnounced put_ok up unique fresh user parts s.functions s.uploads in
    let k = moved_harmless s r.functions harmless h in
    record {
      uploads = announced h.uploads;
      events = k.events;
      messages = k.messages;
      builds = k.builds;
      claimed = k.claimed;
      served = k.served;
      executions = k.executions;
    }

status_extracted_unready : (v : Visit) → is_status (status_extracted v) Function.ready ≡ false
status_extracted_unready v =
    if_both (λ st. is_status st Function.ready ≡ false) (extract_from_quarantine v) refl refl

checked_at :
    (s : Platform) (rest : List UploadEvent) (t : Functions) (passed : List UploadEvent)
    → IsSound (record s { functions = t })
    → Each (IsNamed t) rest
    → Each (IsNamed t) (first_channel (publish_all passed (s.events ∷ [])))
    → IsSound (checked rest (t, passed) s)
checked_at s rest t passed h left published = record {
  uploads = left;
  events = published;
  messages = h.messages;
  builds = h.builds;
  claimed = h.claimed;
  served = h.served;
  executions = h.executions;
}

pub checked-IsSound :
    (s : Platform) (v : Visit) (rest : List UploadEvent)
    → s.uploads ≡ v.event ∷ rest
    → IsSound s
    → IsSound (checked rest (quarantine_worker (v ∷ []) s.functions) s)
unfolding quarantine_worker publish_all publish
checked-IsSound s v rest e h =
    let to = status_extracted v in
    let (t, failed) = Function.update_function_status v.up v.event.function_id to s.functions in
    let k = with_status-IsSound s v.up v.event.function_id to (status_extracted_unready v) h in
    let all = subst (Each (IsNamed t)) e k.uploads in
    let left = λ (x : UploadEvent) (m : Memᴰ x rest). all x (Memᴰ.tail m) in
    let first = all v.event (Memᴰ.head refl) in
    if_both (λ r. IsSound (checked rest r s)) (is_some failed)
      (checked_at s rest t [] k left k.events)
      (checked_at s rest t (v.event ∷ []) k left
        (Each-offer (IsNamed t) v.event s.events first k.events))

pub passed_on-IsSound :
    (s : Platform) (sent : UploadEvent → Bool) (e : UploadEvent) (rest : List UploadEvent)
    → s.events ≡ e ∷ rest
    → IsSound s
    → IsSound (passed_on rest (extraction_worker sent (e ∷ [])) s)
unfolding extraction_worker
passed_on-IsSound s sent e rest at h =
    let all = subst (Each (IsNamed s.functions)) at h.events in
    let one =
      Each-cons (IsNamedMessage s.functions) (create_message e) [] (all e (Memᴰ.head refl))
        (Each-nil _) in
    record {
      uploads = h.uploads;
      events = λ x m. all x (Memᴰ.tail m);
      messages =
          if_both
            (λ (r : List FunctionMessage × Bool).
              Each (IsNamedMessage s.functions) (s.messages ++ r.0))
            (sent e) (Each-append _ s.messages (create_message e ∷ []) h.messages one)
            (Each-append _ s.messages [] h.messages (Each-nil _));
      builds = h.builds;
      claimed = h.claimed;
      served = h.served;
      executions = h.executions;
    }
