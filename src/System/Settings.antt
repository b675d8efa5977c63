-- ===== src/System/Settings.antt =====
-- Whether the three programs mean the same database, object store and broker.
use oblak.Prelude.{◌≡◌, ◌≢◌, refl, ◌↔◌, ◌⊎◌, true, Option, none, [], ◌∷◌, arith}
use oblak.AgentProto.{ℤ}
use oblak.Text.{Bytes, codes, bytes_eq, bytes_eq_iff}
use oblak.Vm.Config.{Environment, or_fallback, get_env as vm_env, load as load_vm}
use oblak.Vm.Config.Routing.{Broker, Delivers, fallback_iff}
use oblak.Server.Config.{get_env as server_env, load as load_server}
use oblak.Analyzer.Config.{Flags, get_env as analyzer_env, string_var, parsed_config}
use oblak.Analyzer.Queue.{
  listener_config, start_publisher_config, publisher_uri, publisher_config, consumer_config, secure,
}

-- A command line with no flags.
abbrev no_flags : Flags
no_flags name = none

-- A fanout exchange hands a message to every queue that is bound to it.
abbrev pub IsFanout : Broker → Type 0
IsFanout b = (exchange key binding : Bytes) → b.reaches exchange (codes "fanout") key binding ≡ true

ssl_iff :
    (v : Bytes)
    → (secure ≡ bytes_eq (or_fallback (codes "false") v) (codes "true")) ↔ (v ≢ codes "true")
ssl_iff [] = (λ h. λ e. cc, λ h. unfold bytes_eq in refl)
ssl_iff (c ∷ v) = ground (arith, bytes_eq_iff (c ∷ v) (codes "true"))

-- With one environment and no flags, the server, the machines and the analyzer are given the same
-- database, object store and keys of it. The analyzer speaks to the object store as the other two do
-- exactly where MINIO_USE_SSL is not true; the server publishes to the broker of the machines exactly
-- where AMQP_URI is not set or the address that is written in the code. What the server publishes to the
-- analyzer reaches its queue under every topic, where a fanout exchange hands messages to all its queues.
pub load-agree :
    (b : Broker) (atoi : Bytes → Option ℤ) (env : Environment) (topic subscribed : Bytes)
    → IsFanout b
    → let s = load_server env in
      let v = load_vm atoi env in
      let a = parsed_config no_flags env in
      (((s.database_url ≡ v.database_url) × (a.db_connection_string ≡ v.database_url))
        × ((s.minio_endpoint ≡ v.minio_endpoint) × (a.minio.endpoint ≡ v.minio_endpoint))
        × ((s.minio_access_key ≡ v.minio_access_key) × (a.minio.access_key ≡ v.minio_access_key))
        × ((s.minio_secret_key ≡ v.minio_secret_key) × (a.minio.secret_key ≡ v.minio_secret_key))
        × (s.minio_use_ssl ≡ v.minio_use_ssl))
      × ((secure ≡ v.minio_use_ssl) ↔ (env (codes "MINIO_USE_SSL") ≢ codes "true"))
      × ((publisher_uri ≡ v.amqp_uri)
          ↔ ((env (codes "AMQP_URI") ≡ []) ⊎ (env (codes "AMQP_URI") ≡ publisher_uri)))
      × Delivers b start_publisher_config topic listener_config subscribed
unfolding load_server load_vm parsed_config string_var vm_env server_env analyzer_env
    publisher_config consumer_config
load-agree b atoi env topic subscribed fanout = (
  ((refl, refl), (refl, refl), (refl, refl), (refl, refl), refl),
  ssl_iff (env (codes "MINIO_USE_SSL")),
  fallback_iff publisher_uri (env (codes "AMQP_URI")) (λ e. cc e),
  (refl, refl, fanout (codes "analyzer") [] []),
)
