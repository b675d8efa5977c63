-- ===== src/Cli/Client.antt =====
-- internal/cli/client/client.go: the request editor that signs what the client sends, and the check
-- of the server on the other side.
use oblak.Prelude.{Result, ok, ℕ, ◌≡◌, refl, true, false, Option, some}
use oblak.Text.{Bytes}
use oblak.Server.AuthKeys.{Crypto, sign}
use oblak.Server.Auth.{
  is_public, authorization_header, AuthKey, KeyError, Request, on_time, require_auth,
}
use oblak.Server.Auth.Access.{require_auth_iff}
use oblak.Server.Auth.RoundTrip.{IsToken, parse_auth_header-authorization_header}

-- A request of the client before it is signed; `body` is empty where there is none.
pub record Outgoing : Type 0 where
  pub full_path : Bytes
  pub method : Bytes
  pub path : Bytes
  pub body : Bytes

-- signingEditor: what is sent. `timestamp` is the text of the clock of the client.
unfoldable pub signing_editor : Crypto → Bytes → Bytes → Bytes → Outgoing → Request
signing_editor c auth_id secret_key timestamp r = record {
  full_path = r.full_path;
  authorization = authorization_header auth_id (sign c r.method r.path r.body timestamp secret_key);
  date = timestamp;
  method = r.method;
  path = r.path;
  body = some r.body;
}

-- The signature as the server computes it, which cannot fail.
abbrev pub server_sign : Crypto → Bytes → Bytes → Bytes → Bytes → Bytes → Option Bytes
server_sign c method path body date secret_key = some (sign c method path body date secret_key)

-- A request that the client signs with a key of the table reaches its handler for the owner of the
-- key, where the path is not public, the clocks are at most 15 minutes apart, and the identifier and
-- the signature are tokens.
pub signing_editor-require_auth :
    (c : Crypto) (now : ℕ) (parse_time : Bytes → Option ℕ)
    (find_key : Bytes → Result KeyError AuthKey) (auth_id timestamp : Bytes) (key : AuthKey)
    (r : Outgoing)
    → is_public r.full_path ≡ false
    → find_key auth_id ≡ ok key
    → on_time now (parse_time timestamp) ≡ true
    → IsToken auth_id
    → IsToken (sign c r.method r.path r.body timestamp key.secret_key)
    → (require_auth now parse_time find_key
        (server_sign c)
        (signing_editor c auth_id key.secret_key timestamp r)).handled
      ≡ some (some key.user_id)
unfolding signing_editor
signing_editor-require_auth c now parse_time find_key auth_id timestamp key r p k t a s =
    let sig = sign c r.method r.path r.body timestamp key.secret_key in
    (require_auth_iff now parse_time find_key (server_sign c)
        (signing_editor c auth_id key.secret_key timestamp r) key.user_id p).1
      (record {
        credential = auth_id;
        signature = sig;
        key = key;
        body = r.body;
        parsed = parse_auth_header-authorization_header auth_id sig a s;
        timely = t;
        known = k;
        readable = refl;
        matches = refl;
        owner = refl;
      })
