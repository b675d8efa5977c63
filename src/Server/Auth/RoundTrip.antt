-- ===== src/Server/Auth/RoundTrip.antt =====
-- The header that the client writes is the one that the server reads.
use oblak.Prelude.{
  ◌==◌, if_false, All-append, ◌≡◌, refl, ap, ◌∙◌, ◌≢◌, false, not, ◌&&◌, Option, none, some, List,
  [], ◌∷◌, ◌++◌, arith,
}
use oblak.Text.{
  Bytes, codes, bytes_eq, bytes_eq_iff, has_prefix-append, strip_prefix-append, trim_space, Lacks,
  IsSolid, trim_space-IsSolid, cut-append,
}
use oblak.Server.Auth.{
  scheme, cons_part, split_comma, Params, read_params, param, both_given, parse_auth_header,
  authorization_header,
}

split_comma-Lacks : (s : Bytes) → Lacks b',' s → split_comma s ≡ s ∷ []
unfolding split_comma
split_comma-Lacks [] h = refl
split_comma-Lacks (c ∷ []) h = refl
split_comma-Lacks (c ∷ d ∷ s) h = ground (arith, split_comma-Lacks (d ∷ s) h.1)

split_comma-append :
    (s t : Bytes) → Lacks b',' s → split_comma (s ++ (codes ", " ++ t)) ≡ s ∷ split_comma t
unfolding split_comma
split_comma-append [] t h = refl
split_comma-append (c ∷ []) t h =
    let apart : (c == b',' && b',' == b' ') ≡ false = ground (arith, h.0) in if_false _ _ apart
split_comma-append (c ∷ d ∷ s) t h =
    let apart : (c == b',' && d == b' ') ≡ false = ground (arith, h.0) in
    if_false _ _ apart ∙ ap (cons_part c) (split_comma-append (d ∷ s) t h.1)

-- A value that can stand in the header: not empty, without a comma and without a blank byte.
pub record IsToken (s : Bytes) : Type 0 where
  pub nonempty : s ≢ []
  pub no_comma : Lacks b',' s
  pub solid : IsSolid s

read_param :
    (name value : Bytes) (parts : List Bytes) (params : Params)
    → Lacks b'=' name
    → IsSolid name
    → IsSolid value
    → read_params ((name ++ (codes "=" ++ value)) ∷ parts) params
      ≡ read_params parts ((name, value) ∷ params)
unfolding read_params
read_param name value parts params e n v =
    let go : Option (Bytes × Bytes) → Option Params = λ o. elim o [
      | none ↦ none
      | some p ↦ read_params parts ((trim_space p.0, trim_space p.1) ∷ params)
    ] in
    ap go (cut-append b'=' name value e)
    ∙ ap (λ k. read_params parts ((k, trim_space value) ∷ params)) (trim_space-IsSolid name n)
    ∙ ap (λ x. read_params parts ((name, x) ∷ params)) (trim_space-IsSolid value v)

given_params : Bytes → Bytes → Params
given_params auth_id sig = (codes "Signature", sig) ∷ (codes "Credential", auth_id) ∷ []

read_params-given :
    (auth_id sig : Bytes)
    → IsSolid auth_id
    → IsSolid sig
    → read_params ((codes "Credential=" ++ auth_id) ∷ (codes "Signature=" ++ sig) ∷ []) []
      ≡ some (given_params auth_id sig)
unfolding given_params read_params
read_params-given auth_id sig a s =
    read_param (codes "Credential") auth_id ((codes "Signature=" ++ sig) ∷ []) [] (ground arith)
      (ground arith) a
    ∙ read_param (codes "Signature") sig [] ((codes "Credential", auth_id) ∷ []) (ground arith)
        (ground arith) s

both_given-nonempty : (a s : Bytes) → a ≢ [] → s ≢ [] → both_given a s ≡ some (a, s)
both_given-nonempty a s n m = ground (arith, bytes_eq_iff a [], bytes_eq_iff s [])

-- The header that the client writes for a key id and a signature, both not empty and without a comma
-- or a blank byte, is parsed into that id and that signature.
pub parse_auth_header-authorization_header :
    (auth_id sig : Bytes)
    → IsToken auth_id
    → IsToken sig
    → parse_auth_header (authorization_header auth_id sig) ≡ some (auth_id, sig)
unfolding parse_auth_header authorization_header param bytes_eq given_params
parse_auth_header-authorization_header auth_id sig a s =
    let rest = (codes "Credential=" ++ auth_id) ++ (codes ", " ++ (codes "Signature=" ++ sig)) in
    let no_comma : Lacks b',' (codes "Credential=" ++ auth_id) =
      All-append (λ c. c ≢ b',') (codes "Credential=") auth_id (ground arith) a.no_comma in
    let no_comma' : Lacks b',' (codes "Signature=" ++ sig) =
      All-append (λ c. c ≢ b',') (codes "Signature=") sig (ground arith) s.no_comma in
    let parts : split_comma rest
        ≡ (codes "Credential=" ++ auth_id) ∷ (codes "Signature=" ++ sig) ∷ [] =
      split_comma-append (codes "Credential=" ++ auth_id) (codes "Signature=" ++ sig) no_comma
      ∙ ap (◌∷◌ (codes "Credential=" ++ auth_id))
          (split_comma-Lacks (codes "Signature=" ++ sig) no_comma') in
    let ends : Option Params → Option (Bytes × Bytes) = λ o. elim o [
      | none ↦ none
      | some params ↦
          both_given (param (codes "Credential") params) (param (codes "Signature") params)
    ] in
    if_false _ _ (ap not (has_prefix-append scheme rest))
    ∙ ap (λ x. ends (read_params (split_comma x) [])) (strip_prefix-append scheme rest)
    ∙ ap (λ ps. ends (read_params ps [])) parts
    ∙ ap ends (read_params-given auth_id sig a.solid s.solid)
    ∙ both_given-nonempty auth_id sig a.nonempty s.nonempty
