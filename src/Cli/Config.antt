-- ===== src/Cli/Config.antt =====
-- internal/cli/config/config.go: the profiles of the client. The file is TOML, whose library is a
-- parameter.
use oblak.Prelude.{
  if◌then◌else◌, Result, err, ok, or_err, ◌≡◌, refl, ◌⊎◌, inl, inr, Bool, true, false, ◌&&◌, Option,
  none, some, List, [], ◌∷◌,
}
use oblak.Text.{Bytes, codes, bytes_eq}

pub record Profile : Type 0 where
  pub auth_id : Bytes
  pub secret_key : Bytes
  pub endpoint : Bytes

abbrev pub Config : Type 0
Config = List (Bytes × Profile)

pub data ConfigError : Type 0 where
  unreadable bad_toml no_profile write_failed : ConfigError

-- What os.ReadFile finds.
pub data ConfigFile : Type 0 where
  absent failing : ConfigFile
  holds : Bytes → ConfigFile

-- Load; `parse` is toml.Unmarshal.
unfoldable pub load : (Bytes → Option Config) → ConfigFile → Result ConfigError Config
load parse absent = ok []
load parse failing = err unreadable
load parse (holds text) = or_err bad_toml (parse text)

-- The value of OBLAK_PROFILE, which is empty where it is not set.
abbrev pub active_profile_name : Bytes → Bytes
active_profile_name [] = codes "default"
active_profile_name (c ∷ s) = c ∷ s

unfoldable pub lookup_profile : Bytes → Config → Option Profile
lookup_profile name [] = none
lookup_profile name ((n, p) ∷ cfg) =
    let rest = lookup_profile name cfg in if bytes_eq n name then some p else rest

unfoldable pub active_profile : Bytes → Config → Result ConfigError Profile
unfolding lookup_profile
active_profile variable cfg = or_err no_profile (lookup_profile (active_profile_name variable) cfg)

-- Save; `print` is toml.Marshal, and the flags say whether the directory is there, the temporary file
-- is written and the rename succeeds. The file that was there stays where a step fails.
unfoldable pub save :
    (Config → Bytes) → Bool → Bool → Bool → Config → ConfigFile → ConfigFile × Option ConfigError
save print dir_ok write_ok rename_ok cfg old =
    if dir_ok && (write_ok && rename_ok)
    then (holds (print cfg), none)
    else (old, some write_failed)

-- What is saved is loaded, where the library parses what it prints; a save that fails leaves what was
-- loaded before.
pub load-save :
    (parse : Bytes → Option Config) (print : Config → Bytes) (dir_ok write_ok rename_ok : Bool)
    (cfg : Config) (old : ConfigFile)
    → ((c : Config) → parse (print c) ≡ some c)
    → let r = save print dir_ok write_ok rename_ok cfg old in
      ((r.1 ≡ none) × (load parse r.0 ≡ ok cfg)) ⊎ ((r.1 ≡ some write_failed) × (r.0 ≡ old))
unfolding save load
load-save parse print true true true cfg old h = inl (refl, rw (h cfg))
load-save parse print false w r cfg old h = inr (refl, refl)
load-save parse print true false r cfg old h = inr (refl, refl)
load-save parse print true true false cfg old h = inr (refl, refl)
