-- ===== src/Examples/Tables.antt =====
-- The stores and the numbers of the machines at concrete inputs.
use oblak.Prelude.{ok, ◌≤◌, ◌≡◌, refl, true, none, some, [], ◌∷◌}
use oblak.Text.{codes}
use oblak.Sql.{Uuid, affected, select_one, IsKeyed}
use oblak.Function
use oblak.Function.{Status, Function, Functions, update_function_status_if}
use oblak.Invocation
use oblak.Invocation.{Invocation, Invocations, update_invocation_status_if}
use oblak.Vm.Resource.{ResourceRequirements}
use oblak.Vm.Service.Workers.{Shared, one_more, start, Reach, at_most_one_worker, is_held}

abbrev uploaded : Uuid → Function.Status → Function
uploaded id s = record {
  function_id = id;
  user_id = 1;
  status = s;
  archive_path = codes "1/code.tar.gz";
  drive_path = none;
}

abbrev pub functions : Functions
functions = uploaded 7 Function.Status.verified ∷ uploaded 8 Function.Status.scanning ∷ []

abbrev invoked : Uuid → Invocation.Status → Invocation
invoked id s = record {
  invocation_id = id;
  function_id = 7;
  status = s;
  invocation_time = some 100;
  end_time = none;
  log_path = none;
}

abbrev pub invocations : Invocations
invocations = invoked 20 Invocation.Status.pending ∷ invoked 21 Invocation.Status.done ∷ []

pub functions-IsKeyed : IsKeyed Function.key functions
functions-IsKeyed = unfold select_one in (refl, (refl, tt))

pub invocations-IsKeyed : IsKeyed Invocation.key invocations
invocations-IsKeyed = unfold select_one in (refl, (refl, tt))

claimed_test :
    (update_function_status_if true 7 Function.Status.verified Function.Status.preparing_environment
      functions).1
    ≡ ok true
unfolding update_function_status_if affected
claimed_test = refl

abbrev greedy : ResourceRequirements
greedy = record { cpu_count = 64; memory_mb = 512; execution_time_limit = 4000 }

abbrev idle : Shared
idle = record { invocations = invocations; holding = λ _. 0 }

abbrev one_worker : Shared
one_worker = record {
  invocations =
      (update_invocation_status_if true 20 Invocation.Status.pending Invocation.Status.executing
        invocations).0;
  holding = one_more 20 (λ _. 0);
}

wins :
    (update_invocation_status_if true 20 Invocation.Status.pending Invocation.Status.executing
      invocations).1
    ≡ ok true
unfolding update_invocation_status_if affected
wins = refl

at_most_one_worker_example :
    (one_worker.holding 20 ≤ 1)
    × (1 ≤ one_worker.holding 20 → is_held (Invocation.status_of 20 one_worker.invocations) ≡ true)
at_most_one_worker_example =
    at_most_one_worker invocations invocations-IsKeyed (Reach.next Reach.here (start true 20 wins))
      20
