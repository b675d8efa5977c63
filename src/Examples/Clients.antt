-- ===== src/Examples/Clients.antt =====
-- What the client packs and signs, and what the server makes of it.
use oblak.Prelude.{
  if◌then◌else◌, All, Result, err, ok, ℕ, ◌≤◌, ◌≡◌, refl, ◌↔◌, true, Option, none, some, List, [],
  ◌∷◌, arith,
}
use oblak.Text.{Bytes, codes, bytes_eq, has_prefix}
use oblak.Server.Extractor.{max_total_size, max_files, Header, unzip}
use oblak.Server.AuthKeys.{sign}
use oblak.Server.Auth.{AuthKey, KeyError, not_found, is_public, require_auth}
use oblak.Server.Auth.RoundTrip.{IsToken}
use oblak.Cli.Client.{Outgoing, signing_editor, server_sign, signing_editor-require_auth}
use oblak.Cli.Upload.{directory, regular, Visit, walked, dir_header, file_header, zip_folder}
use oblak.Cli.Upload.Accepted.{size_of, count_of, total, IsSafeEntry, unzip-zip_folder_iff}
use oblak.Examples.Keys.{plain}

abbrev folder : List Visit
folder =
    walked (codes ".") directory
    ∷ walked (codes "lib") directory
    ∷ walked (codes "lib/a.py") (regular (some (codes "x = 1")))
    ∷ []

abbrev headers : List Header
headers = dir_header (codes "lib") ∷ file_header (codes "lib/a.py") (codes "x = 1") ∷ []

unzip-zip_folder_iff_example : (unzip true true headers ≡ none) ↔ (
    All IsSafeEntry folder
    × (total size_of folder ≤ max_total_size)
    × (total count_of folder ≤ max_files))
unzip-zip_folder_iff_example =
    unzip-zip_folder_iff folder {hs = headers} (unfold zip_folder in unfold bytes_eq in refl)

abbrev secret : AuthKey
secret = record { secret_key = codes "s"; user_id = 1 }

abbrev find_key : Bytes → Result KeyError AuthKey
find_key id = if bytes_eq id (codes "k") then ok secret else err not_found

abbrev clock : Bytes → Option ℕ
clock date = some 1000

abbrev listing : Outgoing
listing = record {
  full_path = codes "/functions";
  method = codes "GET";
  path = codes "/functions";
  body = [];
}

key_id-IsToken : IsToken (codes "k")
key_id-IsToken = record { nonempty = λ h. cc; no_comma = omega arith; solid = (refl, tt) }

signature-IsToken :
    IsToken (sign plain listing.method listing.path listing.body (codes "now") secret.secret_key)
signature-IsToken =
    unfold sign in record { nonempty = λ h. cc; no_comma = omega arith; solid = (refl, (refl, tt)) }

signing_editor-require_auth_example :
    (require_auth 2000 clock find_key
      (server_sign plain)
      (signing_editor plain (codes "k") secret.secret_key (codes "now") listing)).handled
    ≡ some (some 1)
signing_editor-require_auth_example =
    signing_editor-require_auth plain 2000 clock find_key (codes "k") (codes "now") secret listing
      (unfold is_public in unfold bytes_eq in unfold has_prefix in refl) (unfold bytes_eq in refl)
      refl key_id-IsToken signature-IsToken
