-- ===== src/Examples/Profiles.antt =====
-- A profile that is entered, saved and loaded again, with a format of numbers in place of TOML.
use oblak.Prelude.{ok, ◌≡◌, refl, ap, ℕ, zero, suc, true, Option, none, some, List, [], ◌∷◌}
use oblak.Text.{Bytes, codes, trim_space}
use oblak.Cli.Config.{Config, absent, holds, load, save}
use oblak.Cli.Configure.{configure, prompt, ask, set_profile}
use oblak.Cli.Configure.Saved.{Ends, configure-Ends}

-- A text, each of its bytes plus one, and a zero.
unfoldable put : Bytes → Bytes → Bytes
put [] rest = 0 ∷ rest
put (c ∷ s) rest = suc c ∷ put s rest

unfoldable get : Bytes → Bytes × Bytes
get [] = ([], [])
get (zero ∷ t) = ([], t)
get (suc c ∷ t) = let (s, rest) = get t in (c ∷ s, rest)

get-put : (s rest : Bytes) → get (put s rest) ≡ (s, rest)
unfolding get put
get-put [] rest = refl
get-put (c ∷ s) rest = rw (get-put s rest) refl

unfoldable put_all : Config → Bytes
put_all [] = []
put_all ((n, p) ∷ cfg) = put n (put p.auth_id (put p.secret_key (put p.endpoint (put_all cfg))))

unfoldable get_all : ℕ → Bytes → Config
get_all zero t = []
get_all (suc k) t =
    let (n, t1) = get t in
    let (auth_id, t2) = get t1 in
    let (secret_key, t3) = get t2 in
    let (endpoint, t4) = get t3 in
    (n, record { auth_id = auth_id; secret_key = secret_key; endpoint = endpoint }) ∷ get_all k t4

unfoldable count : Config → ℕ
count [] = 0
count (e ∷ cfg) = suc (count cfg)

get_all-put_all : (cfg : Config) → get_all (count cfg) (put_all cfg) ≡ cfg
unfolding get_all put_all count
get_all-put_all [] = refl
get_all-put_all ((n, p) ∷ cfg) =
    let tail = put_all cfg in
    let endpoint = put p.endpoint tail in
    let secret_key = put p.secret_key endpoint in
    rw
      (
        get-put n (put p.auth_id secret_key),
        get-put p.auth_id secret_key,
        get-put p.secret_key endpoint,
        get-put p.endpoint tail,
        get_all-put_all cfg,
      )
      refl

abbrev print : Config → Bytes
print cfg = count cfg ∷ put_all cfg

abbrev parse : Bytes → Option Config
parse [] = none
parse (n ∷ t) = some (get_all n t)

abbrev lines : List Bytes
lines = [] ∷ codes " id" ∷ codes "key" ∷ [] ∷ []

configure-Ends_example :
    Ends parse true [] lines absent (configure parse print true true true [] lines absent)
configure-Ends_example =
    configure-Ends parse print true true true [] lines absent (λ cfg. ap some (get_all-put_all cfg))

configure_saves : configure parse print true true true [] lines absent ≡ (
  holds (
      print (
        (
          codes "default",
          record {
            auth_id = codes "id";
            secret_key = codes "key";
            endpoint = codes "localhost:8080";
          },
        )
        ∷ [])),
  ok (codes "default"),
)
unfolding configure ask prompt set_profile load save trim_space
configure_saves = refl
