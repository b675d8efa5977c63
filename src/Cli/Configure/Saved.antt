-- ===== src/Cli/Configure/Saved.antt =====
-- What `configure` leaves in the file.
use oblak.Prelude.{
  if_true, if_false, Result-cases, Result, err, ok, or_err, ◌≡◌, refl, ap, ◌∙◌, ◌⊎◌, inl, inr, Bool,
  true, false, ◌&&◌, ◌||◌, not, Option, none, some, List, [], ◌∷◌, arith,
}
use oblak.Text.{Bytes, codes, bytes_eq, bytes_eq_iff}
use oblak.Cli.Config.{
  Profile, Config, ConfigError, ConfigFile, load, active_profile_name, lookup_profile,
  active_profile, save, load-save, write_failed, no_profile,
}
use oblak.Cli.Configure.{
  ConfigureError, config_error, is_nil, prompt, set_profile, ask, saved, with_profile, configure,
}

prompt-filled :
    (d : Bytes) (required : Bool) (lines : List Bytes) {v : Bytes} {rest : List Bytes}
    → required || not (is_nil d) ≡ true
    → prompt d required lines ≡ ok (v, rest)
    → is_nil v ≡ false
unfolding prompt
prompt-filled d required [] h e = cc
prompt-filled d required (line ∷ lines) {v} {rest} h e =
    ground (arith, prompt-filled d required lines {v = v} {rest = rest} h)

lookup-set :
    (name : Bytes) (p : Profile) (cfg : Config)
    → lookup_profile name (set_profile name p cfg) ≡ some p
unfolding lookup_profile set_profile
lookup-set name p [] = if_true _ _ ((bytes_eq_iff name name).1 refl)
lookup-set name p ((n, q) ∷ cfg) =
    ground (arith, (bytes_eq_iff name name).1 refl, lookup-set name p cfg)

lookup-set_other :
    (name : Bytes) (p : Profile) (cfg : Config) (other : Bytes)
    → bytes_eq name other ≡ false
    → lookup_profile other (set_profile name p cfg) ≡ lookup_profile other cfg
unfolding lookup_profile set_profile
lookup-set_other name p [] other h = if_false _ _ h
lookup-set_other name p ((n, q) ∷ cfg) other h =
    ground (arith, bytes_eq_iff n name, lookup-set_other name p cfg other h)

abbrev pub IsFilled : Profile → Type 0
IsFilled p =
    (is_nil p.auth_id ≡ false) × (is_nil p.secret_key ≡ false) × (is_nil p.endpoint ≡ false)

ask-IsFilled : (lines : List Bytes) (p : Profile) → ask lines ≡ ok p → IsFilled p
unfolding ask
ask-IsFilled lines p e = elim (Result-cases (prompt [] true lines)) [
  | inl (x, a) ↦ cc
  | inr ((v, rest), a) ↦ elim (Result-cases (prompt [] true rest)) [
    | inl (x, b) ↦ cc
    | inr ((k, rest'), b) ↦ elim (Result-cases (prompt (codes "localhost:8080") false rest')) [
      | inl (x, c) ↦ cc
      | inr ((u, left), c) ↦ ground (
        arith,
        prompt-filled [] true lines {v = v} {rest = rest} refl a,
        prompt-filled [] true rest {v = k} {rest = rest'} refl b,
        prompt-filled (codes "localhost:8080") false rest' {v = u} {rest = left} refl c,
      )
    ]
  ]
]

-- A file that `configure` has written: the profile of the name is the one that the lines gave, and the
-- other names are as they were.
pub record IsSaved (parse : Bytes → Option Config) (variable : Bytes) (lines : List Bytes)
    (old new : ConfigFile) : Type 0 where
  pub before : Config
  pub after : Config
  pub profile : Profile
  pub asked : ask lines ≡ ok profile
  pub filled : IsFilled profile
  pub loaded : load parse old ≡ ok before
  pub reloaded : load parse new ≡ ok after
  pub active : active_profile variable after ≡ ok profile
  pub others :
      (other : Bytes)
      → bytes_eq (active_profile_name variable) other ≡ false
      → lookup_profile other after ≡ lookup_profile other before

-- Why `configure` gives up: an input that ends, a file that is not read, or one that is not written.
abbrev pub Causes :
    (Bytes → Option Config) → Bool → List Bytes → ConfigFile → ConfigureError → Type 0
Causes parse written lines f e =
    (ask lines ≡ err e)
    ⊎ (((c : ConfigError) × (e ≡ config_error c) × (load parse f ≡ err c))
        ⊎ ((e ≡ config_error write_failed) × (written ≡ false)))

-- What `configure` ends as.
abbrev pub Ends :
    (Bytes → Option Config)
    → Bool
    → Bytes
    → List Bytes
    → ConfigFile
    → ConfigFile × Result ConfigureError Bytes
    → Type 0
Ends parse written variable lines f r =
    ((r.1 ≡ ok (active_profile_name variable)) × IsSaved parse variable lines f r.0)
    ⊎ ((e : ConfigureError) × (r.1 ≡ err e) × (r.0 ≡ f) × Causes parse written lines f e)

save_failed :
    (print : Config → Bytes) (dir_ok write_ok rename_ok : Bool) (cfg : Config) (old : ConfigFile)
    → (save print dir_ok write_ok rename_ok cfg old).1 ≡ some write_failed
    → dir_ok && (write_ok && rename_ok) ≡ false
unfolding save
save_failed print true true true cfg old h = cc
save_failed print false w r cfg old h = refl
save_failed print true false r cfg old h = refl
save_failed print true true false cfg old h = refl

saved-file : (name : Bytes) (r : ConfigFile × Option ConfigError) → (saved name r).0 ≡ r.0
saved-file name (f, none) = refl
saved-file name (f, some e) = refl

saved-none :
    (name : Bytes) (r : ConfigFile × Option ConfigError) → r.1 ≡ none → (saved name r).1 ≡ ok name
saved-none name (f, none) h = refl
saved-none name (f, some e) h = cc

saved-some :
    (name : Bytes) (r : ConfigFile × Option ConfigError) {e : ConfigError}
    → r.1 ≡ some e
    → (saved name r).1 ≡ err (config_error e)
saved-some name (f, none) h = cc
saved-some name (f, some e) h = cc

module _ (parse : Bytes → Option Config) (print : Config → Bytes) (dir_ok write_ok rename_ok : Bool)
    (variable : Bytes) (lines : List Bytes) (f : ConfigFile)
    (law : (c : Config) → parse (print c) ≡ some c) where
  abbrev save_to : Config → ConfigFile × Option ConfigError
  save_to cfg = save print dir_ok write_ok rename_ok cfg f

  saved-Ends :
      (p : Profile) (cfg : Config)
      → ask lines ≡ ok p
      → load parse f ≡ ok cfg
      → Ends parse (dir_ok && (write_ok && rename_ok)) variable lines f (
          saved
            (active_profile_name variable)
            (save_to (set_profile (active_profile_name variable) p cfg)))
  unfolding active_profile
  saved-Ends p cfg asked loaded =
      let name = active_profile_name variable in
      let new = set_profile name p cfg in
      elim (load-save parse print dir_ok write_ok rename_ok new f law) [
        | inl (done, again) ↦ inl (
          saved-none name (save_to new) done,
          record {
            before = cfg;
            after = new;
            profile = p;
            asked = asked;
            filled = ask-IsFilled lines p asked;
            loaded = loaded;
            reloaded = ap (load parse) (saved-file name (save_to new)) ∙ again;
            active = ap (or_err no_profile) (lookup-set name p cfg);
            others = lookup-set_other name p cfg;
          },
        )
        | inr (failed, same) ↦ inr (
          config_error write_failed,
          saved-some name (save_to new) failed,
          saved-file name (save_to new) ∙ same,
          inr (inr (refl, save_failed print dir_ok write_ok rename_ok new f failed)),
        )
      ]

  with_profile-Ends :
      (a : Result ConfigureError Profile) (l : Result ConfigError Config)
      → ask lines ≡ a
      → load parse f ≡ l
      → Ends parse
          (dir_ok && (write_ok && rename_ok))
          variable
          lines
          f
          (with_profile save_to f (active_profile_name variable) l a)
  with_profile-Ends (err e) l asked loaded = inr (e, refl, refl, inl asked)
  with_profile-Ends (ok p) (err e) asked loaded =
      inr (config_error e, refl, refl, inr (inl (e, refl, loaded)))
  with_profile-Ends (ok p) (ok cfg) asked loaded = saved-Ends p cfg asked loaded

  -- Where the library parses what it prints, `configure` ends in one of two ways: it shows the active name,
  -- and the file that it leaves is loaded again with the profile of that name as it was entered, no field of
  -- it empty, and with every other profile as before; or it ends with an error and the file as it was, where
  -- the input ends too early, the file cannot be loaded, or it cannot be written.
  pub configure-Ends :
      Ends parse
        (dir_ok && (write_ok && rename_ok))
        variable
        lines
        f
        (configure parse print dir_ok write_ok rename_ok variable lines f)
  unfolding configure
  configure-Ends = with_profile-Ends (ask lines) (load parse f) refl refl
