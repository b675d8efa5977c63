-- ===== src/Server/Upload.antt =====
-- internal/server/handler/upload.go: an upload goes to the quarantine bucket, to the table of the
-- functions and to the bus.
pub mod Kept
use oblak.Prelude.{if◌then◌else◌, Result, err, ok, Bool, Option, none, some, List, [], ◌∷◌, ◌++◌}
use oblak.Text.{Bytes, codes, bytes_eq}
use oblak.Sql.{DbError, Uuid}
use oblak.Function
use oblak.Function.{Function, Functions}
use oblak.Server.Bus.{publish}
use oblak.Server.Quarantine.{UploadEvent}

pub record Part : Type 0 where
  pub form_name : Bytes
  pub file_name : Bytes
  pub content : Bytes

pub data UploadError : Type 0 where
  no_user part_failed no_file put_failed : UploadError
  not_saved : DbError → UploadError

pub record ParsedFile : Type 0 where
  pub filename : Bytes
  pub reader : Bytes

abbrev or_unknown : Bytes → Bytes
or_unknown [] = codes "unknown.tar.gz"
or_unknown (c ∷ s) = c ∷ s

-- The parts up to the end of the form; `none` is a part that cannot be read.
unfoldable pub parse_uploaded_file : List (Option Part) → Result UploadError ParsedFile
parse_uploaded_file [] = err no_file
parse_uploaded_file (none ∷ parts) = err part_failed
parse_uploaded_file (some p ∷ parts) =
    let rest = parse_uploaded_file parts in
    if bytes_eq p.form_name (codes "function")
    then ok (record { filename = or_unknown p.file_name; reader = p.content })
    else rest

abbrev pub quarantine_bucket : Bytes
quarantine_bucket = codes "oblak-quarantine"

abbrev pub object_name : Bytes → ParsedFile → Bytes
object_name unique file = unique ++ (codes "-" ++ file.filename)

-- What an upload leaves: the new objects of the bucket, the functions, the channels of the
-- subscribers and the reply.
pub record Uploaded : Type 0 where
  pub objects : List (Bytes × Bytes)
  pub functions : Functions
  pub subscribers : List (List UploadEvent)
  pub reply : Result UploadError Uuid

abbrev pub event : Function.Function → UploadEvent
event f = record {
  function_id = f.function_id;
  user_id = f.user_id;
  bucket = quarantine_bucket;
  path = f.archive_path;
}

abbrev pub after_save :
    List (Bytes × Bytes)
    → List (List UploadEvent)
    → Functions × Result DbError Function.Function
    → Uploaded
after_save objects subscribers (t, err e) = record {
  objects = objects;
  functions = t;
  subscribers = subscribers;
  reply = err (not_saved e);
}
after_save objects subscribers (t, ok f) = record {
  objects = objects;
  functions = t;
  subscribers = publish (event f) subscribers;
  reply = ok f.function_id;
}

abbrev refused : Functions → List (List UploadEvent) → UploadError → Uploaded
refused t subscribers e = record {
  objects = [];
  functions = t;
  subscribers = subscribers;
  reply = err e;
}

-- UploadFile and what follows it; `unique` is the text of uuid.New() and `put_ok` the result of
-- PutObject.
abbrev pub with_file :
    Bool
    → Bool
    → Bytes
    → Uuid
    → Uuid
    → Functions
    → List (List UploadEvent)
    → Result UploadError ParsedFile
    → Uploaded
with_file put_ok up unique fresh user t subscribers (err e) = refused t subscribers e
with_file put_ok up unique fresh user t subscribers (ok file) =
    let name = object_name unique file in
    if put_ok
    then after_save ((name, file.reader) ∷ []) subscribers
        (Function.create_function up fresh user Function.quarantined name t)
    else refused t subscribers put_failed

-- UploadLambda
unfoldable pub upload_lambda :
    Bool
    → Bool
    → Bytes
    → Uuid
    → Option Uuid
    → List (Option Part)
    → Functions
    → List (List UploadEvent)
    → Uploaded
unfolding parse_uploaded_file
upload_lambda put_ok up unique fresh none parts t subscribers = refused t subscribers no_user
upload_lambda put_ok up unique fresh (some user) parts t subscribers =
    with_file put_ok up unique fresh user t subscribers (parse_uploaded_file parts)
