-- ===== src/Cli/Upload.antt =====
-- cmd/cli/upload.go: packing a folder and sending it. What filepath.Walk meets and the answer of the
-- server are parameters; a file is taken not to change while it is read.
pub mod Accepted
use oblak.Prelude.{
  if◌then◌else◌, length, Result, err, ok, ◌>>=◌, ◌>>◌, or_err, guard, Bool, Option, none, some,
  List, [], ◌∷◌,
}
use oblak.Text.{Bytes, bytes_eq}
use oblak.FilePath.{dot}
use oblak.Server.Extractor.{type_reg, type_dir, type_other, Header}
use oblak.Cli.Config.{Profile, Config, ConfigError, ConfigFile, load, active_profile}

-- What the walk meets at a path: a directory, a file with its content, or something else, such as a
-- symbolic link, with what os.Open gives to read; `none` is what cannot be opened.
pub data Kind : Type 0 where
  directory : Kind
  regular : Option Bytes → Kind
  special : Option Bytes → Kind

-- `walked` with the path relative to the folder, or an error of the walk.
pub data Visit : Type 0 where
  walk_error : Visit
  walked : Bytes → Kind → Visit

pub data ZipError : Type 0 where
  walk_failed open_failed write_too_long : ZipError

abbrev pub dir_header : Bytes → Header
dir_header name = record { name = name; typeflag = type_dir; size = 0 }

abbrev pub file_header : Bytes → Bytes → Header
file_header name content = record { name = name; typeflag = type_reg; size = length content }

-- The header of what is no plain file says 0 bytes, so the writer refuses any that follow.
abbrev pub special_entry : Bytes → Bytes → Result ZipError Header
special_entry name [] = ok (record { name = name; typeflag = type_other; size = 0 })
special_entry name (c ∷ s) = err write_too_long

unfoldable pub entry : Bytes → Kind → Result ZipError Header
entry name directory = ok (dir_header name)
entry name (regular none) = err open_failed
entry name (regular (some content)) = ok (file_header name content)
entry name (special none) = err open_failed
entry name (special (some content)) = special_entry name content

-- zipFolder: the headers of the archive.
unfoldable pub zip_folder : List Visit → Result ZipError (List Header)
unfolding entry
zip_folder [] = ok []
zip_folder (walk_error ∷ visits) = err walk_failed
zip_folder (walked name kind ∷ visits) =
    let rest = zip_folder visits in
    let packed = entry name kind >>= λ h. rest >>= λ hs. ok (h ∷ hs) in
    if bytes_eq name dot then rest else packed

pub data UploadError : Type 0 where
  bad_path upload_failed bad_response : UploadError
  zip_error : ZipError → UploadError
  config_error : ConfigError → UploadError

-- validatePath: the path is there and is a folder.
unfoldable pub validate_path : Option Bool → Result UploadError (Unit {0})
validate_path none = err bad_path
validate_path (some is_dir) = guard is_dir bad_path

-- The answer of the server: a status below 300 with the identifier that the body holds, if it does.
pub data Reply : Type 0 where
  no_reply refused : Reply
  accepted : Option Bytes → Reply

abbrev function_id : Reply → Result UploadError Bytes
function_id no_reply = err upload_failed
function_id refused = err upload_failed
function_id (accepted id) = or_err bad_response id

abbrev or_zip : {A : Type 0} → Result ZipError A → Result UploadError A
or_zip (err e) = err (zip_error e)
or_zip (ok a) = ok a

abbrev or_config : {A : Type 0} → Result ConfigError A → Result UploadError A
or_config (err e) = err (config_error e)
or_config (ok a) = ok a

-- uploadFile: the archive goes to the server, which answers.
unfoldable pub upload_file : (List Header → Reply) → List Visit → Result UploadError Bytes
unfolding zip_folder
upload_file send visits = or_zip (zip_folder visits) >>= λ hs. function_id (send hs)

-- uploadCmd up to the polling of the function that it returns.
unfoldable pub upload :
    (Bytes → Option Config)
    → ConfigFile
    → Bytes
    → Option Bool
    → (Profile → List Header → Reply)
    → List Visit
    → Result UploadError Bytes
unfolding upload_file validate_path
upload parse file variable path send visits =
    validate_path path
    >> (or_config (load parse file) >>= λ cfg.
        or_config (active_profile variable cfg) >>= λ profile. upload_file (send profile) visits)
