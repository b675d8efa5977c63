-- ===== src/Vm/Router/Setup.antt =====
-- NewVmRouter of internal/vm/queue/router.go: what is opened, and what is closed again where a part of
-- it fails.
use mathlib.Core.Path.{subst}
use oblak.Prelude.{
  if◌then◌else◌, if_both, Bool-cases, Option-cases, ◌⊎◌, Result, err, ok, ℕ, zero, suc, ◌+◌, ◌≡◌,
  ◌≢◌, refl, sym, ap, ◌∙◌, ◌↔◌, inl, inr, Bool, true, false, not, Option, none, some, [], ◌∷◌,
  arith,
}
use oblak.AgentProto.{ℤ, pos, negsuc}
use oblak.Text.{Bytes, codes}
use oblak.Vm.Config.{Config, Environment, load, get_env_int, int_or, or_default}

-- The publishers and the router that are open, and the number of subscribers.
pub record Opened : Type 0 where
  pub dlq_publisher : Bool
  pub exe_dlq_publisher : Bool
  pub router : Bool
  pub subscribers : ℕ

pub data SetupError : Type 0 where
  no_dlq_publisher no_poison_queue no_exe_dlq_publisher no_exe_poison_queue : SetupError
  no_router no_build_subscriber no_execute_subscriber : SetupError

-- What the calls of the libraries answer; a subscriber has its number.
pub record SetupCalls : Type 0 where
  pub dlq_ok : Bool
  pub poison_ok : Bool
  pub exe_dlq_ok : Bool
  pub exe_poison_ok : Bool
  pub router_ok : Bool
  pub build_ok : ℕ → Bool
  pub execute_ok : ℕ → Bool

-- The consumers of a router.
pub record VmRouter : Type 0 where
  pub builds : ℕ
  pub executes : ℕ

abbrev pub nothing : Opened
nothing = record {
  dlq_publisher = false;
  exe_dlq_publisher = false;
  router = false;
  subscribers = 0;
}

abbrev pub open_dlq : Opened → Opened
open_dlq o = record o { dlq_publisher = true }

abbrev pub open_exe_dlq : Opened → Opened
open_exe_dlq o = record o { exe_dlq_publisher = true }

abbrev pub close_dlq : Opened → Opened
close_dlq o = record o { dlq_publisher = false }

abbrev pub close_both : Opened → Opened
close_both o = record (close_dlq o) { exe_dlq_publisher = false }

abbrev pub close_all : Opened → Opened
close_all o = record (close_both o) { router = false }

-- The loop over the consumers of one queue from the `i`-th on: the subscribers that it opens, and
-- whether it got all.
unfoldable pub subscribe : (ℕ → Bool) → ℕ → ℕ → ℕ × Bool
subscribe sub_ok i zero = (0, true)
subscribe sub_ok i (suc n) =
    let rest = subscribe sub_ok (suc i) n in if sub_ok i then (suc rest.0, rest.1) else (0, false)

-- `for i := range n`
abbrev pub rounds : ℤ → ℕ
rounds (pos n) = n
rounds (negsuc n) = 0

abbrev with_subscribers : ℕ → Opened → Opened
with_subscribers n o = record o { subscribers = o.subscribers + n }

abbrev pub add_executes : (ℕ → Bool) → ℕ → ℕ → Opened → Result SetupError VmRouter × Opened
add_executes sub_ok builds n o =
    let (count, all) = subscribe sub_ok 0 n in
    if all
    then (ok (record { builds = builds; executes = count }), with_subscribers count o)
    else (err no_execute_subscriber, close_all (with_subscribers count o))

abbrev pub add_builds : SetupCalls → ℕ → ℕ → Opened → Result SetupError VmRouter × Opened
add_builds c n k o =
    let (count, all) = subscribe c.build_ok 0 n in
    if all
    then add_executes c.execute_ok count k (with_subscribers count o)
    else (err no_build_subscriber, close_all (with_subscribers count o))

-- NewVmRouter
unfoldable pub new_vm_router : SetupCalls → Config → Result SetupError VmRouter × Opened
new_vm_router c cfg =
    let one = open_dlq nothing in
    let two = open_exe_dlq one in
    if not c.dlq_ok
    then (err no_dlq_publisher, nothing)
    else if not c.poison_ok
    then (err no_poison_queue, close_dlq one)
    else if not c.exe_dlq_ok
    then (err no_exe_dlq_publisher, close_dlq one)
    else if not c.exe_poison_ok
    then (err no_exe_poison_queue, close_both two)
    else if not c.router_ok
    then (err no_router, close_both two)
    else add_builds c (rounds cfg.max_concurrent_builds) (rounds cfg.max_concurrent_executes)
        (record two { router = true })

subscribe_all :
    (sub_ok : ℕ → Bool) (i n : ℕ) → (subscribe sub_ok i n).1 ≡ true → (subscribe sub_ok i n).0 ≡ n
unfolding subscribe
subscribe_all sub_ok i zero h = refl
subscribe_all sub_ok i (suc n) h = ground (arith, subscribe_all sub_ok (suc i) n)

-- Where the set-up fails, both publishers and the router are closed; where it does not, they are open,
-- and there is a consumer with a subscriber of its own for each round of the two loops.
abbrev pub IsSetUp : Config → Opened → Result SetupError VmRouter → Type 0
IsSetUp cfg o (err e) =
    (o.dlq_publisher ≡ false) × (o.exe_dlq_publisher ≡ false) × (o.router ≡ false)
IsSetUp cfg o (ok r) =
    (o.dlq_publisher ≡ true)
    × (o.exe_dlq_publisher ≡ true)
    × (o.router ≡ true)
    × (r.builds ≡ rounds cfg.max_concurrent_builds)
    × (r.executes ≡ rounds cfg.max_concurrent_executes)
    × (o.subscribers ≡ r.builds + r.executes)

add_executes-IsSetUp :
    (cfg : Config) (sub_ok : ℕ → Bool)
    → let n = rounds cfg.max_concurrent_builds in
      let r =
        add_executes sub_ok n
          (rounds cfg.max_concurrent_executes)
          (with_subscribers n (record (open_exe_dlq (open_dlq nothing)) { router = true })) in
      IsSetUp cfg r.1 r.0
add_executes-IsSetUp cfg sub_ok =
    let k = rounds cfg.max_concurrent_executes in
    let n = rounds cfg.max_concurrent_builds in
    elim (Bool-cases (subscribe sub_ok 0 k).1) [
      | inr e ↦ rw e (refl, refl, refl)
      | inl e ↦ rw e (refl, refl, refl, refl, subscribe_all sub_ok 0 k e, omega arith)
    ]

add_builds-IsSetUp :
    (cfg : Config) (c : SetupCalls)
    → let r =
        add_builds c
          (rounds cfg.max_concurrent_builds)
          (rounds cfg.max_concurrent_executes)
          (record (open_exe_dlq (open_dlq nothing)) { router = true }) in
      IsSetUp cfg r.1 r.0
add_builds-IsSetUp cfg c =
    let n = rounds cfg.max_concurrent_builds in
    elim (Bool-cases (subscribe c.build_ok 0 n).1) [
      | inr e ↦ rw e (refl, refl, refl)
      | inl e ↦ rw e (rw (subscribe_all c.build_ok 0 n e) (add_executes-IsSetUp cfg c.execute_ok))
    ]

pub new_vm_router-IsSetUp :
    (c : SetupCalls) (cfg : Config) → let r = new_vm_router c cfg in IsSetUp cfg r.1 r.0
unfolding new_vm_router
new_vm_router-IsSetUp c cfg =
    let P = λ (r : Result SetupError VmRouter × Opened). IsSetUp cfg r.1 r.0 in
    let closed : (e : SetupError) → P (err e, nothing) = λ e. (refl, refl, refl) in
    if_both P (not c.dlq_ok) (closed no_dlq_publisher) (
      if_both P (not c.poison_ok) (closed no_poison_queue) (
        if_both P (not c.exe_dlq_ok) (closed no_exe_dlq_publisher) (
          if_both P (not c.exe_poison_ok) (closed no_exe_poison_queue)
            (if_both P (not c.router_ok) (closed no_router) (add_builds-IsSetUp cfg c)))))

-- A variable that is set, and read as an integer that is not positive.
abbrev pub TurnsOff : (Bytes → Option ℤ) → Bytes → Type 0
TurnsOff atoi v = (v ≢ []) × ((i : ℤ) × (atoi v ≡ some i) × (rounds i ≡ 0))

rounds-or_default :
    (fallback : ℤ) (o : Option ℤ)
    → rounds fallback ≢ 0
    → rounds (or_default fallback o) ≡ 0
    → (i : ℤ) × (o ≡ some i) × (rounds i ≡ 0)
rounds-or_default fallback none n h = absurd (n h)
rounds-or_default fallback (some i) n h = (i, refl, h)

rounds-int_or :
    (atoi : Bytes → Option ℤ) (fallback : ℤ) (v : Bytes)
    → rounds fallback ≢ 0
    → (rounds (int_or atoi fallback v) ≡ 0) ↔ TurnsOff atoi v
rounds-int_or atoi fallback [] n = (λ e. absurd (n e), λ o. absurd (o.0 refl))
rounds-int_or atoi fallback (b ∷ v) n = (
  λ e. (λ x. cc x, rounds-or_default fallback (atoi (b ∷ v)) n e),
  λ o. ap (λ x. rounds (or_default fallback x)) o.1.1 ∙ o.1.2,
)

rounds-get_env_int :
    (atoi : Bytes → Option ℤ) (env : Environment) (key : Bytes) (fallback : ℤ)
    → rounds fallback ≢ 0
    → (rounds (get_env_int atoi env key fallback) ≡ 0) ↔ TurnsOff atoi (env key)
unfolding get_env_int
rounds-get_env_int atoi env key fallback n = rounds-int_or atoi fallback (env key) n

-- The number of consumers for a variable: the default where it is not set or no integer, and otherwise
-- the integer, where a negative one asks for none.
abbrev pub AskedFor : (Bytes → Option ℤ) → ℕ → Bytes → ℕ → Type 0
AskedFor atoi fallback v n =
    (((v ≡ []) ⊎ (atoi v ≡ none)) × (n ≡ fallback))
    ⊎ ((v ≢ []) × ((i : ℤ) × (atoi v ≡ some i) × (n ≡ rounds i)))

asked-int_or :
    (atoi : Bytes → Option ℤ) (fallback : ℕ) (v : Bytes)
    → AskedFor atoi fallback v (rounds (int_or atoi (pos fallback) v))
asked-int_or atoi fallback [] = inl (inl refl, refl)
asked-int_or atoi fallback (b ∷ v) = elim (Option-cases (atoi (b ∷ v))) [
  | inl e ↦ inl (inr e, ap (λ o. rounds (or_default (pos fallback) o)) e)
  | inr (i, e) ↦ inr (λ x. cc x, (i, e, ap (λ o. rounds (or_default (pos fallback) o)) e))
]

asked-get_env_int :
    (atoi : Bytes → Option ℤ) (env : Environment) (key : Bytes) (fallback : ℕ)
    → AskedFor atoi fallback (env key) (rounds (get_env_int atoi env key (pos fallback)))
unfolding get_env_int
asked-get_env_int atoi env key fallback = asked-int_or atoi fallback (env key)

-- A router that is set up with the settings of the environment has as many consumers of builds as
-- MAX_CONCURRENT_BUILDS says, 3 where it is not set or no integer, and of executions as
-- MAX_CONCURRENT_EXECUTES says, 20 where it is not set or no integer. It consumes no builds, or no
-- executions, exactly where the variable is set to an integer that is not positive.
pub new_vm_router-load :
    (c : SetupCalls) (atoi : Bytes → Option ℤ) (env : Environment) (r : VmRouter)
    → (new_vm_router c (load atoi env)).0 ≡ ok r
    → ((r.builds ≡ 0) ↔ TurnsOff atoi (env (codes "MAX_CONCURRENT_BUILDS")))
      × ((r.executes ≡ 0) ↔ TurnsOff atoi (env (codes "MAX_CONCURRENT_EXECUTES")))
      × AskedFor atoi 3 (env (codes "MAX_CONCURRENT_BUILDS")) r.builds
      × AskedFor atoi 20 (env (codes "MAX_CONCURRENT_EXECUTES")) r.executes
unfolding load
new_vm_router-load c atoi env r h =
    let cfg = load atoi env in
    let (_, _, _, builds, executes, _) =
      subst (IsSetUp cfg (new_vm_router c cfg).1) h (new_vm_router-IsSetUp c cfg) in
    let b = rounds-get_env_int atoi env (codes "MAX_CONCURRENT_BUILDS") (pos 3) (λ e. cc e) in
    let x = rounds-get_env_int atoi env (codes "MAX_CONCURRENT_EXECUTES") (pos 20) (λ e. cc e) in
    (
      (λ e. b.0 (sym builds ∙ e), λ o. builds ∙ b.1 o),
      (λ e. x.0 (sym executes ∙ e), λ o. executes ∙ x.1 o),
      subst (AskedFor atoi 3 (env (codes "MAX_CONCURRENT_BUILDS"))) (sym builds)
          (asked-get_env_int atoi env (codes "MAX_CONCURRENT_BUILDS") 3),
      subst (AskedFor atoi 20 (env (codes "MAX_CONCURRENT_EXECUTES"))) (sym executes)
          (asked-get_env_int atoi env (codes "MAX_CONCURRENT_EXECUTES") 20),
    )
