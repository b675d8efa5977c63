-- ===== src/Server/Auth/Access.antt =====
-- Which requests reach their handler.
use mathlib.Core.Path.{subst}
use oblak.Prelude.{
  if◌then◌else◌, if_false, Result, err, ok, ℕ, ◌≡◌, refl, sym, ap, ◌∙◌, ◌↔◌, Bool, true, false,
  Option, none, some, List, [], ◌∷◌, ◌++◌, arith,
}
use oblak.Text.{Bytes, bytes_eq, bytes_eq_iff}
use oblak.Sql.{Uuid}
use oblak.Server.Auth.{
  parse_auth_header, is_public, AuthKey, KeyError, not_found, unavailable, Request, next, on_time,
  compare, read_body, with_key, with_header, protected, require_auth,
}

next-handled :
    (u : Option Uuid) (aborts : List ℕ) (v : Option Uuid)
    → ((next u aborts).handled ≡ some v) ↔ ((aborts ≡ []) × (u ≡ v))
next-handled u [] v = ground arith
next-handled u (a ∷ aborts) v = (λ h. cc h, λ q. cc (q.0))

append-none :
    (aborts : List ℕ) (b : Bool)
    → (aborts ++ (if b then [] else 401 ∷ []) ≡ []) ↔ ((aborts ≡ []) × (b ≡ true))
append-none [] true = (λ _. (refl, refl), λ _. refl)
append-none [] false = (λ h. cc h, λ q. cc (q.1))
append-none (a ∷ aborts) b = (λ h. cc h, λ q. cc (q.0))

compare_iff :
    (u : Uuid) (signature : Bytes) (aborts : List ℕ) (made : Option Bytes) (v : Uuid)
    → ((compare u signature aborts made).handled ≡ some (some v))
      ↔ ((aborts ≡ []) × (u ≡ v) × (made ≡ some signature))
compare_iff u signature aborts none v = (λ h. cc h, λ q. cc (q.2))
compare_iff u signature aborts (some expected) v =
    let n =
      next-handled (some u) (aborts ++ (if bytes_eq expected signature then [] else 401 ∷ []))
        (some v) in
    let a = append-none aborts (bytes_eq expected signature) in
    let b = bytes_eq_iff expected signature in
    (
      λ h.
          let (none_left, same) = n.0 h in
          let (empty, eq) = a.0 none_left in (empty, cc same, ap some (b.0 eq)),
      λ q. n.1 (a.1 (q.0, b.1 (cc (q.2))), ap some q.1),
    )

module _ (now : ℕ) (parse_time : Bytes → Option ℕ) (get_auth_key : Bytes → Result KeyError AuthKey)
    (sign : Bytes → Bytes → Bytes → Bytes → Bytes → Option Bytes) where
  -- The request is signed in time with the key of the user.
  pub record IsSigned (r : Request) (user : Uuid) : Type 0 where
    pub credential : Bytes
    pub signature : Bytes
    pub key : AuthKey
    pub body : Bytes
    pub parsed : parse_auth_header r.authorization ≡ some (credential, signature)
    pub timely : on_time now (parse_time r.date) ≡ true
    pub known : get_auth_key credential ≡ ok key
    pub readable : r.body ≡ some body
    pub matches : sign r.method r.path body r.date key.secret_key ≡ some signature
    pub owner : key.user_id ≡ user

  read_body_iff :
      (r : Request) (signature : Bytes) (aborts : List ℕ) (key : AuthKey) (body : Option Bytes)
      (v : Uuid)
      → ((read_body now parse_time get_auth_key sign r signature aborts key body).handled
          ≡ some (some v))
        ↔ ((aborts ≡ [])
            × (key.user_id ≡ v)
            × ((b : Bytes) × (body ≡ some b)
                × (sign r.method r.path b r.date key.secret_key ≡ some signature)))
  read_body_iff r signature aborts key none v = (λ h. cc h, λ q. let (b, e, _) = q.2 in cc e)
  read_body_iff r signature aborts key (some body) v =
      let c =
        compare_iff key.user_id signature aborts (sign r.method r.path body r.date key.secret_key)
          v in
      (
        λ h. let (a, u, s) = c.0 h in (a, u, (body, refl, s)),
        λ q.
            let (b, e, s) = q.2 in
            let same : b ≡ body = cc e in
            c.1 (
              q.0,
              q.1,
              subst (λ x. sign r.method r.path x r.date key.secret_key ≡ some signature) same s,
            ),
      )

  with_key_iff :
      (r : Request) (signature : Bytes) (aborts : List ℕ) (found : Result KeyError AuthKey)
      (v : Uuid)
      → ((with_key now parse_time get_auth_key sign r signature aborts found).handled
          ≡ some (some v))
        ↔ ((aborts ≡ [])
            × ((key : AuthKey) × (found ≡ ok key)
                × (key.user_id ≡ v)
                × ((b : Bytes) × (r.body ≡ some b)
                    × (sign r.method r.path b r.date key.secret_key ≡ some signature))))
  with_key_iff r signature aborts (err not_found) v =
      (λ h. cc h, λ q. let (k, e, _, _) = q.1 in cc e)
  with_key_iff r signature aborts (err unavailable) v =
      (λ h. cc h, λ q. let (k, e, _, _) = q.1 in cc e)
  with_key_iff r signature aborts (ok key) v =
      let c = read_body_iff r signature aborts key r.body v in
      (
        λ h. let (a, u, b) = c.0 h in (a, (key, refl, u, b)),
        λ q.
            let (k, e, u, b) = q.1 in
            let same : k ≡ key = cc e in
            let P = λ (x : AuthKey).
              (x.user_id ≡ v)
              × ((body : Bytes) × (r.body ≡ some body)
                  × (sign r.method r.path body r.date x.secret_key ≡ some signature)) in
            let (u', b') = subst P same (u, b) in c.1 (q.0, u', b'),
      )

  with_header_iff :
      (r : Request) (header : Option (Bytes × Bytes)) (v : Uuid)
      → parse_auth_header r.authorization ≡ header
      → ((with_header now parse_time get_auth_key sign r
            (if on_time now (parse_time r.date) then [] else 401 ∷ [])
            header).handled
          ≡ some (some v))
        ↔ IsSigned r v
  with_header_iff r none v e =
      let c =
        with_key_iff r [] (401 ∷ (if on_time now (parse_time r.date) then [] else 401 ∷ []))
          (get_auth_key []) v in
      (λ h. let (a, _) = c.0 h in cc a, λ s. cc (e, s.parsed))
  with_header_iff r (some (credential, signature)) v e =
      let late = if on_time now (parse_time r.date) then [] else 401 ∷ [] in
      let c = with_key_iff r signature late (get_auth_key credential) v in
      let t = append-none [] (on_time now (parse_time r.date)) in
      (
        λ h.
            let (a, (key, known, owner, (body, readable, matches))) = c.0 h in
            record {
              credential = credential;
              signature = signature;
              key = key;
              body = body;
              parsed = e;
              timely = (t.0 a).1;
              known = known;
              readable = readable;
              matches = matches;
              owner = owner;
            },
        λ s.
            let parsed : some (s.credential, s.signature) ≡ some (credential, signature) =
              sym s.parsed ∙ e in
            let first : Option (Bytes × Bytes) → Bytes = λ o. elim o [ none ↦ [] | some p ↦ p.0 ] in
            let second : Option (Bytes × Bytes) → Bytes =
              λ o. elim o [ none ↦ [] | some p ↦ p.1 ] in
            c.1 (
              t.1 (refl, s.timely),
              (
                s.key,
                subst (λ x. get_auth_key x ≡ ok s.key) (ap first parsed) s.known,
                s.owner,
                (
                  s.body,
                  s.readable,
                  subst (λ x. sign r.method r.path s.body r.date s.key.secret_key ≡ some x)
                      (ap second parsed) s.matches,
                ),
              ),
            ),
      )

  -- A request to a path that is not public reaches its handler, for the user `user`, exactly when its
  -- header parses, its date is within 15 minutes of the clock, its key is known and belongs to that
  -- user, its body can be read and the signature under that key is the one of the header.
  pub require_auth_iff :
      (r : Request) (user : Uuid)
      → is_public r.full_path ≡ false
      → ((require_auth now parse_time get_auth_key sign r).handled ≡ some (some user))
        ↔ IsSigned r user
  unfolding require_auth
  require_auth_iff r user p =
      let reached = if_false (next none []) (protected now parse_time get_auth_key sign r) p in
      let w = with_header_iff r (parse_auth_header r.authorization) user refl in
      (λ h. w.0 (sym (ap (λ x. x.handled) reached) ∙ h), λ s. ap (λ x. x.handled) reached ∙ w.1 s)
