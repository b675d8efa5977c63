-- ===== src/Server/Auth.antt =====
-- internal/server/middleware/auth.go: which requests reach their handler, with the header that the
-- command line writes (internal/cli/client/client.go).
pub mod RoundTrip
pub mod Access
use oblak.Prelude.{
  ltb, ◌==◌, if◌then◌else◌, Result, err, ok, ℕ, ◌-◌, ◌*◌, Bool, true, false, not, ◌&&◌, ◌||◌,
  Option, none, some, List, [], ◌∷◌, ◌++◌,
}
use oblak.Text.{Bytes, codes, bytes_eq, has_prefix, strip_prefix, trim_space, cut}
use oblak.Sql.{Uuid}

abbrev pub scheme : Bytes
scheme = codes "HMAC-SHA256 "

-- strings.Split(s, ", ")
abbrev pub cons_part : ℕ → List Bytes → List Bytes
cons_part c [] = (c ∷ []) ∷ []
cons_part c (p ∷ ps) = (c ∷ p) ∷ ps

unfoldable pub split_comma : Bytes → List Bytes
split_comma [] = [] ∷ []
split_comma (c ∷ []) = (c ∷ []) ∷ []
split_comma (c ∷ d ∷ s) =
    let rest = split_comma s in
    let shifted = split_comma (d ∷ s) in
    if c == b',' && d == b' ' then [] ∷ rest else cons_part c shifted

abbrev pub Params : Type 0
Params = List (Bytes × Bytes)

-- The loop over the parts; a later parameter stands in front of an earlier one with its name.
unfoldable pub read_params : List Bytes → Params → Option Params
read_params [] params = some params
read_params (part ∷ parts) params = elim (cut b'=' part) [
  | none ↦ none
  | some p ↦ read_params parts ((trim_space p.0, trim_space p.1) ∷ params)
]

-- A missing parameter is the empty string.
unfoldable pub param : Bytes → Params → Bytes
param name [] = []
param name ((k, v) ∷ params) = let rest = param name params in if bytes_eq k name then v else rest

-- The end of parseAuthHeader.
abbrev pub both_given : Bytes → Bytes → Option (Bytes × Bytes)
both_given credential signature =
    if bytes_eq credential [] || bytes_eq signature [] then none else some (credential, signature)

-- parseAuthHeader
unfoldable pub parse_auth_header : Bytes → Option (Bytes × Bytes)
parse_auth_header header =
    if not (has_prefix header scheme)
    then none
    else elim (read_params (split_comma (strip_prefix header scheme)) []) [
      | none ↦ none
      | some params ↦
          both_given (param (codes "Credential") params) (param (codes "Signature") params)
    ]

unfoldable pub is_public : Bytes → Bool
is_public path =
    if bytes_eq path (codes "/health") then true else has_prefix path (codes "/execute/")

-- signingEditor: the Authorization header of a request.
unfoldable pub authorization_header : Bytes → Bytes → Bytes
authorization_header auth_id sig =
    scheme ++ ((codes "Credential=" ++ auth_id) ++ (codes ", " ++ (codes "Signature=" ++ sig)))

pub record AuthKey : Type 0 where
  pub secret_key : Bytes
  pub user_id : Uuid

pub data KeyError : Type 0 where
  not_found unavailable : KeyError

-- A request: the header fields, its path, its method and its body, if it can be read.
pub record Request : Type 0 where
  pub full_path : Bytes
  pub authorization : Bytes
  pub date : Bytes
  pub method : Bytes
  pub path : Bytes
  pub body : Option Bytes

-- What a request meets: the aborts by their status codes, in order, and whether its handler runs, for
-- a user where it is not public.
pub record Reply : Type 0 where
  pub aborts : List ℕ
  pub handled : Option (Option Uuid)

-- Next of gin, where no handler runs behind an abort.
abbrev pub next : Option Uuid → List ℕ → Reply
next user [] = record { aborts = []; handled = some user }
next user (code ∷ codes) = record { aborts = code ∷ codes; handled = none }

abbrev pub stop : List ℕ → Reply
stop aborts = record { aborts = aborts; handled = none }

-- 15 minutes, in nanoseconds.
abbrev pub max_skew : ℕ
max_skew = 15 * 60 * 1000000000

abbrev pub skew : ℕ → ℕ → ℕ
skew now t = if ltb now t then t - now else now - t

abbrev pub on_time : ℕ → Option ℕ → Bool
on_time now none = false
on_time now (some t) = not (ltb max_skew (skew now t))

-- The comparison of the signatures, where one could be made.
abbrev pub compare : Uuid → Bytes → List ℕ → Option Bytes → Reply
compare user signature aborts none = stop (aborts ++ 500 ∷ [])
compare user signature aborts (some expected) =
    next (some user) (aborts ++ (if bytes_eq expected signature then [] else 401 ∷ []))

-- `now` is the clock, `parse_time` is time.Parse, `get_auth_key` the key store, and `sign` the
-- signature of a method, a path, a body and a time under a key, where it can be made.
module _ (now : ℕ) (parse_time : Bytes → Option ℕ) (get_auth_key : Bytes → Result KeyError AuthKey)
    (sign : Bytes → Bytes → Bytes → Bytes → Bytes → Option Bytes) where
  -- From the body on.
  abbrev pub read_body : Request → Bytes → List ℕ → AuthKey → Option Bytes → Reply
  read_body r signature aborts key none = stop (aborts ++ 500 ∷ [])
  read_body r signature aborts key (some body) =
      compare key.user_id signature aborts (sign r.method r.path body r.date key.secret_key)

  -- From the key on; a key that is not found is answered twice.
  abbrev pub with_key : Request → Bytes → List ℕ → Result KeyError AuthKey → Reply
  with_key r signature aborts (err not_found) = stop (aborts ++ 401 ∷ 500 ∷ [])
  with_key r signature aborts (err unavailable) = stop (aborts ++ 500 ∷ [])
  with_key r signature aborts (ok key) = read_body r signature aborts key r.body

  -- From the header on, with what the date adds; behind a header that does not parse, the request
  -- goes on with an empty credential.
  abbrev pub with_header : Request → List ℕ → Option (Bytes × Bytes) → Reply
  with_header r late none = with_key r [] (401 ∷ late) (get_auth_key [])
  with_header r late (some (credential, signature)) =
      with_key r signature late (get_auth_key credential)

  abbrev pub protected : Request → Reply
  protected r =
      with_header r (if on_time now (parse_time r.date) then [] else 401 ∷ [])
        (parse_auth_header r.authorization)

  -- RequireAuth
  unfoldable pub require_auth : Request → Reply
  require_auth r = if is_public r.full_path then next none [] else protected r
