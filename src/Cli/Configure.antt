-- ===== src/Cli/Configure.antt =====
-- cmd/cli/configure.go: the questions of `configure`, and the profile that it saves.
pub mod Saved
use oblak.Prelude.{
  if◌then◌else◌, if_true, if_false, if_both, Bool-cases, Option-cases, Result-cases, Result, err,
  ok, ◌>>=◌, ◌≡◌, ◌≢◌, refl, sym, ap, ◌∙◌, ◌⊎◌, inl, inr, Bool, true, false, ◌&&◌, not, Option,
  none, some, List, [], ◌∷◌, ◌++◌, arith,
}
use oblak.Text.{Bytes, codes, bytes_eq, bytes_eq_iff, trim_space}
use oblak.Cli.Config.{
  Profile, Config, ConfigError, ConfigFile, load, active_profile_name, lookup_profile,
  active_profile, save, load-save,
}

pub data ConfigureError : Type 0 where
  input_closed : ConfigureError
  config_error : ConfigError → ConfigureError

abbrev pub is_nil : Bytes → Bool
is_nil [] = true
is_nil (c ∷ s) = false

-- prompt, over the lines that the scanner gives: the answer, and the lines that are left. An empty answer is the default, or asked for again.
unfoldable pub prompt : Bytes → Bool → List Bytes → Result ConfigureError (Bytes × List Bytes)
prompt default_val required [] = err input_closed
prompt default_val required (line ∷ lines) =
    let again = prompt default_val required lines in
    let val = trim_space line in
    if is_nil val && not (is_nil default_val)
    then ok (default_val, lines)
    else if is_nil val && required
    then again
    else ok (val, lines)

-- `cfg[name] = p`
unfoldable pub set_profile : Bytes → Profile → Config → Config
set_profile name p [] = (name, p) ∷ []
set_profile name p ((n, q) ∷ cfg) =
    let rest = set_profile name p cfg in if bytes_eq n name then (name, p) ∷ cfg else (n, q) ∷ rest

-- The three questions.
unfoldable pub ask : List Bytes → Result ConfigureError Profile
ask lines = do
  (auth_id, rest) ← prompt [] true lines
  (secret_key, rest') ← prompt [] true rest
  (endpoint, _) ← prompt (codes "localhost:8080") false rest'
  ok (record { auth_id = auth_id; secret_key = secret_key; endpoint = endpoint })

-- The answer to the error of Save, with the name that is shown.
abbrev pub saved :
    Bytes → ConfigFile × Option ConfigError → ConfigFile × Result ConfigureError Bytes
saved name (f, none) = (f, ok name)
saved name (f, some e) = (f, err (config_error e))

abbrev pub with_config :
    (Config → ConfigFile × Option ConfigError)
    → ConfigFile
    → Bytes
    → Profile
    → Result ConfigError Config
    → ConfigFile × Result ConfigureError Bytes
with_config save_to f name p (err e) = (f, err (config_error e))
with_config save_to f name p (ok cfg) = saved name (save_to (set_profile name p cfg))

abbrev pub with_profile :
    (Config → ConfigFile × Option ConfigError)
    → ConfigFile
    → Bytes
    → Result ConfigError Config
    → Result ConfigureError Profile
    → ConfigFile × Result ConfigureError Bytes
with_profile save_to f name loaded (err e) = (f, err e)
with_profile save_to f name loaded (ok p) = with_config save_to f name p loaded

-- configureCmd: from the lines of the input and the file, the file that is left and the name of the
-- profile. The output on the terminal is taken to succeed.
unfoldable pub configure :
    (Bytes → Option Config)
    → (Config → Bytes)
    → Bool
    → Bool
    → Bool
    → Bytes
    → List Bytes
    → ConfigFile
    → ConfigFile × Result ConfigureError Bytes
configure parse print dir_ok write_ok rename_ok variable lines f =
    with_profile (λ cfg. save print dir_ok write_ok rename_ok cfg f) f
      (active_profile_name variable) (load parse f) (ask lines)
