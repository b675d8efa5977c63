-- ===== src/Examples/Settings.antt =====
-- The settings of the programs in an environment that names a scanner and the use of TLS.
use oblak.Prelude.{
  if◌then◌else◌, ◌≡◌, ◌≢◌, refl, ok, ◌↔◌, ◌⊎◌, Bool, true, false, ◌&&◌, ◌||◌, Option, none, some,
  List, [], ◌∷◌,
}
use oblak.AgentProto.{ℤ, pos}
use oblak.Text.{Bytes, codes, bytes_eq, bytes_eq_iff}
use oblak.Vm.Config.{Environment, load as load_vm}
use oblak.Server.Config.{load as load_server}
use oblak.Vm.Config.Routing.{Broker, Delivers}
use oblak.Analyzer.Config.{
  Stat, denied, found, returns, panics, parsed_config, Flags, string_var, get_env,
  verify_binary_exists, validate, load, main,
}
use oblak.Analyzer.Config.Start.{settled, main_returns_iff}
use oblak.Analyzer.Queue.{
  start_publisher_config, published_topic, listener_config, listener_topic, publisher_uri, secure,
}
use oblak.System.Settings.{load-agree}

abbrev environment : Environment
environment key = if bytes_eq key (codes "MINIO_USE_SSL") then codes "true" else []

abbrev atoi : Bytes → Option ℤ
atoi text = some (pos 1)

-- A direct or a fanout exchange.
abbrev reaches : Bytes → Bytes → Bytes → Bytes → Bool
reaches exchange kind key binding =
    bytes_eq kind (codes "fanout") || (bytes_eq kind (codes "direct") && bytes_eq key binding)

direct_iff :
    (exchange key binding : Bytes)
    → (reaches exchange (codes "direct") key binding ≡ true) ↔ (key ≡ binding)
unfolding bytes_eq
direct_iff exchange key binding = bytes_eq_iff key binding

abbrev broker : Broker
broker = record { reaches = reaches; direct = direct_iff }

fanout_reaches :
    (exchange key binding : Bytes) → reaches exchange (codes "fanout") key binding ≡ true
unfolding bytes_eq
fanout_reaches exchange key binding = refl

load-agree_example :
    let s = load_server environment in
    let v = load_vm atoi environment in
    let a = parsed_config (λ name. none) environment in
    (((s.database_url ≡ v.database_url) × (a.db_connection_string ≡ v.database_url))
      × ((s.minio_endpoint ≡ v.minio_endpoint) × (a.minio.endpoint ≡ v.minio_endpoint))
      × ((s.minio_access_key ≡ v.minio_access_key) × (a.minio.access_key ≡ v.minio_access_key))
      × ((s.minio_secret_key ≡ v.minio_secret_key) × (a.minio.secret_key ≡ v.minio_secret_key))
      × (s.minio_use_ssl ≡ v.minio_use_ssl))
    × ((secure ≡ v.minio_use_ssl) ↔ (environment (codes "MINIO_USE_SSL") ≢ codes "true"))
    × ((publisher_uri ≡ v.amqp_uri) ↔ (
        (environment (codes "AMQP_URI") ≡ []) ⊎ (environment (codes "AMQP_URI") ≡ publisher_uri)))
    × Delivers broker start_publisher_config published_topic listener_config listener_topic
load-agree_example =
    load-agree broker atoi environment published_topic listener_topic fanout_reaches

-- A host on which the second scanner cannot be looked at.
abbrev stat : Bytes → Stat
stat path = if bytes_eq path (codes "/locked/semgrep") then denied else found false

abbrev flags : Flags
flags name = if bytes_eq name (codes "sast-path") then some (codes "/locked/semgrep") else none

main_returns_iff_example :
    let cfg = parsed_config flags environment in
    let start = main stat environment true true true (some (codes "old" ∷ [])) (ok flags) in
    ((start ≡ (some [], returns (settled cfg))) ↔ (
      (Path (Option (List Bytes)) (some []) (some []))
      × (settled cfg ≡ settled cfg)
      × (¬ (flags (codes "database_url") ≡ some []))
      × (stat cfg.audit_binary_path ≡ found false)
      × (stat cfg.sast_binary_path ≡ found false)
      × (true && (true && true) ≡ true)))
    × ((start.1 ≡ panics) ↔ (
        (¬ (flags (codes "database_url") ≡ some []))
        × ((stat cfg.audit_binary_path ≡ denied)
            ⊎ ((stat cfg.audit_binary_path ≡ found false) × (stat cfg.sast_binary_path ≡ denied)))))
main_returns_iff_example =
    main_returns_iff stat environment true true true (some (codes "old" ∷ [])) (some []) flags
      (settled (parsed_config flags environment))

start_panics :
    (main stat environment true true true (some (codes "old" ∷ [])) (ok flags)).1 ≡ panics
unfolding main load validate parsed_config string_var get_env verify_binary_exists bytes_eq
start_panics = refl
