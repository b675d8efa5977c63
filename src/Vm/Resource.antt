-- ===== src/Vm/Resource.antt =====
-- internal/vm/vm/resource.go: the budget of a virtual machine. Times are in seconds.
use oblak.Prelude.{ltb, if◌then◌else◌, ℕ, ◌*◌, ◌≤◌, ◌≡◌, arith}

abbrev pub cpu_count_default : ℕ
cpu_count_default = 1

abbrev pub memory_mb_default : ℕ
memory_mb_default = 512

abbrev pub cpu_count_hard_limit : ℕ
cpu_count_hard_limit = 6

abbrev pub memory_mb_hard_limit : ℕ
memory_mb_hard_limit = 10 * 1024

pub record ResourceRequirements : Type 0 where
  pub cpu_count : ℕ
  pub memory_mb : ℕ
  pub execution_time_limit : ℕ

pub record ResourcePolicy : Type 0 where
  pub default_exec_time : ℕ
  pub exec_time_hard_limit : ℕ

abbrev pub execute_policy : ResourcePolicy
execute_policy = record { default_exec_time = 5 * 60; exec_time_hard_limit = 15 * 60 }

abbrev pub prepare_policy : ResourcePolicy
prepare_policy = record { default_exec_time = 30 * 60; exec_time_hard_limit = 60 * 60 }

unfoldable pub defaults : ResourcePolicy → ResourceRequirements
defaults p = record {
  cpu_count = cpu_count_default;
  memory_mb = memory_mb_default;
  execution_time_limit = p.default_exec_time;
}

unfoldable pub apply_hard_limits : ResourcePolicy → ResourceRequirements → ResourceRequirements
apply_hard_limits p r = record {
  cpu_count = if ltb cpu_count_hard_limit r.cpu_count then cpu_count_hard_limit else r.cpu_count;
  memory_mb = if ltb memory_mb_hard_limit r.memory_mb then memory_mb_hard_limit else r.memory_mb;
  execution_time_limit =
      if ltb p.exec_time_hard_limit r.execution_time_limit
      then p.exec_time_hard_limit
      else r.execution_time_limit;
}

pub record IsWithinLimits (p : ResourcePolicy) (r : ResourceRequirements) : Type 0 where
  pub cpu : r.cpu_count ≤ cpu_count_hard_limit
  pub memory : r.memory_mb ≤ memory_mb_hard_limit
  pub time : r.execution_time_limit ≤ p.exec_time_hard_limit

-- The limits are met behind `ApplyHardLimits`, and requirements that meet them already, such as the
-- defaults of both policies, are left as they are.
pub apply_hard_limits_lem :
    (p : ResourcePolicy) (r : ResourceRequirements)
    → IsWithinLimits p (apply_hard_limits p r)
      × (IsWithinLimits p r → apply_hard_limits p r ≡ r)
      × IsWithinLimits execute_policy (defaults execute_policy)
      × IsWithinLimits prepare_policy (defaults prepare_policy)
unfolding apply_hard_limits defaults
apply_hard_limits_lem p r = (ground arith, λ h. ground arith, ground arith, ground arith)
