-- ===== src/Server/Upload/Kept.antt =====
-- internal/server/handler/upload.go: what is answered, stored, saved and published agrees.
use mathlib.Core.Path.{subst}
use oblak.Prelude.{
  Option-cases, Result, err, ok, ◌≡◌, refl, sym, ap, ◌⊎◌, inl, inr, Bool, true, false, Option, none,
  some, List, [], ◌∷◌, arith,
}
use oblak.Text.{Bytes}
use oblak.Sql.{DbError, unreachable, duplicate_key, Uuid, find-insert, insert_fresh, insert_taken}
use oblak.Function
use oblak.Function.{Function, Functions}
use oblak.Server.Bus.{publish}
use oblak.Server.Quarantine.{UploadEvent}
use oblak.Server.Upload.{
  Part, UploadError, ParsedFile, parse_uploaded_file, object_name, Uploaded, event, after_save,
  with_file, upload_lambda,
}

abbrev pub saved_row : Uuid → Uuid → Bytes → Function.Function
saved_row fresh user path = record {
  function_id = fresh;
  user_id = user;
  status = Function.quarantined;
  archive_path = path;
  drive_path = none;
}

-- CreateFunction either fails or inserts that row.
pub create_function_cases :
    (up : Bool) (fresh user : Uuid) (path : Bytes) (t : Functions)
    → let r = Function.create_function up fresh user Function.quarantined path t in
      ((e : DbError) × (r.1 ≡ err e))
      ⊎ ((r.1 ≡ ok (saved_row fresh user path))
          × (Function.row fresh r.0 ≡ some (saved_row fresh user path)))
unfolding Function.create_function
create_function_cases false fresh user path t = inl (unreachable, refl)
create_function_cases true fresh user path t = elim (Option-cases (Function.row fresh t)) [
  | inl e ↦
      let f = saved_row fresh user path in
      let stored = find-insert Function.key f t fresh e in
      inr (rw (insert_fresh Function.key f t e), ground (arith, stored))
  | inr (g, e) ↦ inl (duplicate_key, rw (insert_taken Function.key (saved_row fresh user path) t e))
]

-- An upload that is answered with an identifier has stored its object, and the identifier is that
-- of a quarantined function of the user with the path of the object, which was published; one that
-- is refused published nothing.
abbrev pub IsKept : Uuid → List (List UploadEvent) → Uploaded → Result UploadError Uuid → Type 0
IsKept user before r (err e) = r.subscribers ≡ before
IsKept user before r (ok id) =
    (f : Function.Function) × (content : Bytes) × (Function.row id r.functions ≡ some f)
    × (f.status ≡ Function.quarantined)
    × (f.user_id ≡ user)
    × (r.objects ≡ (f.archive_path, content) ∷ [])
    × (r.subscribers ≡ publish (event f) before)

after_save-IsKept :
    (fresh user : Uuid) (name content : Bytes) (before : List (List UploadEvent))
    (p : Functions × Result DbError Function.Function)
    → ((e : DbError) × (p.1 ≡ err e))
      ⊎ ((p.1 ≡ ok (saved_row fresh user name))
          × (Function.row fresh p.0 ≡ some (saved_row fresh user name)))
    → let r = after_save ((name, content) ∷ []) before p in IsKept user before r r.reply
after_save-IsKept fresh user name content before (t, err e) h = refl
after_save-IsKept fresh user name content before (t, ok f) (inl (e, h)) = absurd (ground (arith, h))
after_save-IsKept fresh user name content before (t, ok f) (inr (h, stored)) =
    let same : f ≡ saved_row fresh user name = ground (arith, h) in
    (
      f,
      content,
      subst (λ (g : Function.Function). Function.row g.function_id t ≡ some g) (sym same) stored,
      ap (λ g. g.status) same,
      ap (λ g. g.user_id) same,
      ap (λ g. (g.archive_path, content) ∷ []) (sym same),
      refl,
    )

with_file-IsKept :
    (put_ok up : Bool) (unique : Bytes) (fresh user : Uuid) (t : Functions)
    (before : List (List UploadEvent)) (file : Result UploadError ParsedFile)
    → let r = with_file put_ok up unique fresh user t before file in IsKept user before r r.reply
with_file-IsKept put_ok up unique fresh user t before (err e) = refl
with_file-IsKept false up unique fresh user t before (ok file) = refl
with_file-IsKept true up unique fresh user t before (ok file) =
    let name = object_name unique file in
    after_save-IsKept fresh user name file.reader before
      (Function.create_function up fresh user Function.quarantined name t)
      (create_function_cases up fresh user name t)

-- Whatever the form, the store and the database answer, what an upload replies agrees with what it
-- stored, saved and published.
pub upload_lambda-IsKept :
    (put_ok up : Bool) (unique : Bytes) (fresh user : Uuid) (parts : List (Option Part))
    (t : Functions) (before : List (List UploadEvent))
    → let r = upload_lambda put_ok up unique fresh (some user) parts t before in
      IsKept user before r r.reply
unfolding upload_lambda
upload_lambda-IsKept put_ok up unique fresh user parts t before =
    with_file-IsKept put_ok up unique fresh user t before (parse_uploaded_file parts)
