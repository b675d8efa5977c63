-- ===== src/Vm/Config/Routing.antt =====
-- Which queues the messages of the publishers reach. RabbitMQ is a parameter.
use oblak.Prelude.{◌≡◌, ◌≢◌, refl, sym, ◌↔◌, ◌⊎◌, inl, inr, Bool, true, Option, [], ◌∷◌}
use oblak.AgentProto.{ℤ}
use oblak.Text.{Bytes, codes}
use oblak.Vm.Config.{
  Config, Environment, or_fallback, get_env, load, ConsumerConfig, PublisherConfig,
  prepare_env_consumer_config, execute_consumer_config, publisher_config, build_topic,
  execute_topic,
}

-- A message that is published with a routing key reaches the queues that an exchange of its name has
-- for it; of a direct exchange those whose key is the same.
pub record Broker : Type 0 where
  pub reaches : (exchange kind key binding : Bytes) → Bool
  pub direct :
      (exchange key binding : Bytes)
      → (reaches exchange (codes "direct") key binding ≡ true) ↔ (key ≡ binding)

module _ (b : Broker) where
  -- A message of a topic gets to the queue of a consumer, which takes its key from the topic that it
  -- subscribes to.
  abbrev pub Delivers : PublisherConfig → Bytes → ConsumerConfig → Bytes → Type 0
  Delivers p topic c subscribed =
      (p.amqp_uri ≡ c.amqp_uri)
      × (p.exchange ≡ c.exchange)
      × (b.reaches p.exchange.name p.exchange.kind (p.routing_key topic) (c.routing_key subscribed)
          ≡ true)

  module _ (cfg : Config) (topic subscribed : Bytes) where
    build_queue_iff :
        Delivers (publisher_config cfg) topic (prepare_env_consumer_config cfg) subscribed
        ↔ (topic ≡ cfg.build_queue_name)
    unfolding publisher_config prepare_env_consumer_config
    build_queue_iff =
        let direct = b.direct cfg.amqp_vm_exchange_name topic cfg.build_queue_name in
        (λ d. direct.0 d.2, λ e. (refl, refl, direct.1 e))

    execute_queue_iff :
        Delivers (publisher_config cfg) topic (execute_consumer_config cfg) subscribed
        ↔ (topic ≡ cfg.execute_queue_name)
    unfolding publisher_config execute_consumer_config
    execute_queue_iff =
        let direct = b.direct cfg.amqp_vm_exchange_name topic cfg.execute_queue_name in
        (λ d. direct.0 d.2, λ e. (refl, refl, direct.1 e))

pub fallback_iff :
    (fallback v : Bytes)
    → fallback ≢ []
    → (fallback ≡ or_fallback fallback v) ↔ ((v ≡ []) ⊎ (v ≡ fallback))
fallback_iff fallback [] n = (λ _. inl refl, λ _. refl)
fallback_iff fallback (c ∷ v) n =
    (λ e. inr (sym e), λ h. elim h [ inl e ↦ absurd (cc e) | inr e ↦ sym e ])

-- With one environment for the three programs, a direct exchange hands the analyzer's builds to the
-- build queue exactly where BUILD_QUEUE_NAME is not set or `build`, and the server's executions to the
-- execute queue exactly where EXECUTE_QUEUE_NAME is not set or `execute`; a dead letter of either kind
-- reaches either of the two queues exactly where its name in the settings is the name of that queue.
pub load-Delivers :
    (b : Broker) (atoi : Bytes → Option ℤ) (env : Environment) (subscribed : Bytes)
    → let cfg = load atoi env in
      (Delivers b (publisher_config cfg) build_topic (prepare_env_consumer_config cfg) subscribed
        ↔ ((env (codes "BUILD_QUEUE_NAME") ≡ []) ⊎ (env (codes "BUILD_QUEUE_NAME") ≡ build_topic)))
      × (Delivers b (publisher_config cfg) execute_topic (execute_consumer_config cfg) subscribed
          ↔ ((env (codes "EXECUTE_QUEUE_NAME") ≡ [])
              ⊎ (env (codes "EXECUTE_QUEUE_NAME") ≡ execute_topic)))
      × (Delivers b
            (publisher_config cfg)
            cfg.build_dlq_name
            (prepare_env_consumer_config cfg)
            subscribed
          ↔ (cfg.build_dlq_name ≡ cfg.build_queue_name))
      × (Delivers b
            (publisher_config cfg)
            cfg.execute_dlq_name
            (execute_consumer_config cfg)
            subscribed
          ↔ (cfg.execute_dlq_name ≡ cfg.execute_queue_name))
      × (Delivers b
            (publisher_config cfg)
            cfg.build_dlq_name
            (execute_consumer_config cfg)
            subscribed
          ↔ (cfg.build_dlq_name ≡ cfg.execute_queue_name))
      × (Delivers b
            (publisher_config cfg)
            cfg.execute_dlq_name
            (prepare_env_consumer_config cfg)
            subscribed
          ↔ (cfg.execute_dlq_name ≡ cfg.build_queue_name))
unfolding load get_env
load-Delivers b atoi env subscribed =
    let cfg = load atoi env in
    let build = fallback_iff build_topic (env (codes "BUILD_QUEUE_NAME")) (λ e. cc e) in
    let execute = fallback_iff execute_topic (env (codes "EXECUTE_QUEUE_NAME")) (λ e. cc e) in
    let to_build = λ (topic : Bytes). build_queue_iff b cfg topic subscribed in
    let to_execute = λ (topic : Bytes). execute_queue_iff b cfg topic subscribed in
    (
      (λ d. build.0 ((to_build build_topic).0 d), λ e. (to_build build_topic).1 (build.1 e)),
      (
        λ d. execute.0 ((to_execute execute_topic).0 d),
        λ e. (to_execute execute_topic).1 (execute.1 e),
      ),
      to_build cfg.build_dlq_name,
      to_execute cfg.execute_dlq_name,
      to_execute cfg.build_dlq_name,
      to_build cfg.execute_dlq_name,
    )
