-- ===== src/Examples/Requests.antt =====
-- The parts of the server at concrete inputs.
use oblak.Server.Extraction.{extracted_messages, create_message, extraction-quarantine_worker}
use oblak.Prelude.{
  if◌then◌else◌, length, All, Result, err, ok, ℕ, ◌≤◌, ◌≡◌, refl, ◌↔◌, Bool, true, false, Option,
  none, some, List, [], ◌∷◌, arith,
}
use oblak.Text.{
  Bytes, codes, bytes_eq, has_prefix, strip_prefix, contains_byte, contains, trim_space, cut, split,
  join,
}
use oblak.FilePath.{is_abs, push, clean}
use oblak.Sql.{Uuid}
use oblak.Server.Extractor.{
  max_total_size, max_files, type_reg, type_dir, Header, check_name, check_size,
  validate_tar_header, unzip_loop, unzip, IsSafeHeader, sum_sizes, unzip_iff,
}
use oblak.Server.Bus.{publish_all, accepted, each, IsBounded, publish_all_lem}
use oblak.Server.Quarantine.{UploadEvent, Visit}
use oblak.Server.Auth.{
  Request, AuthKey, KeyError, not_found, authorization_header, parse_auth_header, is_public,
  require_auth, split_comma, read_params, param,
}
use oblak.Server.Auth.Access.{IsSigned, require_auth_iff}
use oblak.Server.Auth.RoundTrip.{IsToken}
use oblak.Examples.Tables.{functions}

abbrev headers : List Header
headers =
    record { name = codes "main.py"; typeflag = type_reg; size = 100 }
    ∷ record { name = codes "lib"; typeflag = type_dir; size = 0 }
    ∷ []

unzip_test : unzip true true headers ≡ none
unfolding unzip unzip_loop validate_tar_header check_name check_size clean push bytes_eq split join
    is_abs contains contains_byte
unzip_test = refl

unzip_iff_example : (unzip true true headers ≡ none) ↔ (
    (true ≡ true)
    × (true ≡ true)
    × All IsSafeHeader headers
    × (sum_sizes headers ≤ max_total_size)
    × (length headers ≤ max_files))
unzip_iff_example = unzip_iff true true headers

abbrev published : List ℕ
published = 1 ∷ 2 ∷ []

abbrev channels : List (List ℕ)
channels = (0 ∷ []) ∷ [] ∷ []

publish_all_example :
    (publish_all published channels ≡ each (accepted published) channels)
    × All IsBounded (publish_all published channels)
publish_all_example = publish_all_lem published channels (omega arith, (omega arith, tt))

abbrev visit : Uuid → Bool → Visit
visit id up = record {
  event = record {
    function_id = id;
    user_id = 1;
    bucket = codes "quarantine";
    path = codes "1/code.tar.gz";
  };
  get_ok = true;
  gzip_ok = true;
  at_end = true;
  headers = headers;
  up = up;
}

abbrev key_id : Bytes
key_id = codes "AKID"

abbrev signature : Bytes
signature = codes "0a1b"

key_id-IsToken : IsToken key_id
key_id-IsToken = record { nonempty = λ h. cc h; no_comma = ground arith; solid = ground arith }

signature-IsToken : IsToken signature
signature-IsToken = record { nonempty = λ h. cc h; no_comma = ground arith; solid = ground arith }

abbrev request : Request
request = record {
  full_path = codes "/functions";
  authorization = authorization_header key_id signature;
  date = codes "now";
  method = codes "GET";
  path = codes "/functions";
  body = some [];
}

abbrev parse_time : Bytes → Option ℕ
parse_time date = some 1000

abbrev get_auth_key : Bytes → Result KeyError AuthKey
get_auth_key id =
    if bytes_eq id key_id
    then ok (record { secret_key = codes "s"; user_id = 1 })
    else err not_found

abbrev sign : Bytes → Bytes → Bytes → Bytes → Bytes → Option Bytes
sign method path body date secret = some signature

private_test : is_public (codes "/functions") ≡ false
unfolding is_public has_prefix bytes_eq
private_test = refl

handled_test : (require_auth 2000 parse_time get_auth_key sign request).handled ≡ some (some 1)
unfolding require_auth is_public has_prefix bytes_eq parse_auth_header authorization_header
    split_comma read_params param cut trim_space strip_prefix
handled_test = refl

require_auth_iff_example :
    ((require_auth 2000 parse_time get_auth_key sign request).handled ≡ some (some 1))
    ↔ IsSigned 2000 parse_time get_auth_key sign request 1
require_auth_iff_example = require_auth_iff 2000 parse_time get_auth_key sign request 1 private_test

-- An event that waits in the channel.
abbrev waiting : UploadEvent
waiting = (visit 8 true).event

extraction-quarantine_worker_example :
    extracted_messages (λ _. true) (waiting ∷ []) (visit 7 true ∷ []) functions
    ≡ (create_message waiting ∷ create_message (visit 7 true).event ∷ [], false)
extraction-quarantine_worker_example =
    extraction-quarantine_worker (λ _. true) (waiting ∷ []) (visit 7 true ∷ []) functions
      (omega arith) (refl, tt) (λ _. refl)
