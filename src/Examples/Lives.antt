-- ===== src/Examples/Lives.antt =====
-- The life of a machine and the polling of a client on concrete runs.
use oblak.Prelude.{◌≡◌, refl, ◌⊎◌, true, false, List, [], ◌∷◌, ◌++◌}
use oblak.Text.{codes, bytes_eq}
use oblak.Vm.Machine.{
  fresh_vm, World, started, Change, context_ends, powers_off, Leads, unchanged, and_then,
}
use oblak.Vm.Machine.Release.{IsReleased, Leads-IsReleased}
use oblak.Function
use oblak.Cli.Poll.{
  Response, answered, status_line, changed, final_status, polling, returned, poll_function_status,
  ticks_of, status_text, EndsWith, stays, poll_ends,
}

-- The machine powers off by itself, and then the context of its caller ends.
abbrev timed_out : World
timed_out = record { vm = record fresh_vm { running = false }; ctx_done = true; watching = true }

timed_out-Leads : Leads started timed_out
timed_out-Leads =
    and_then (and_then unchanged (powers_off started))
      (context_ends (record started { vm = record fresh_vm { running = false } }))

Leads-IsReleased_example :
    IsReleased timed_out.vm ⊎ ((u : World) × Change timed_out u × IsReleased u.vm)
Leads-IsReleased_example = Leads-IsReleased false timed_out-Leads refl

abbrev answers : List Response
answers = answered (codes "SCANNING") ∷ answered (codes "VERIFIED") ∷ answered (codes "READY") ∷ []

poll_ends_example :
    ((poll_function_status [] (ticks_of (Function.scanning ∷ Function.verified ∷ []))).1 ≡ polling)
    × EndsWith
        (final_status (status_text Function.ready) true)
        (returned (status_text Function.ready))
        (poll_function_status [] (
          ticks_of (Function.scanning ∷ Function.verified ∷ [])
          ++ answered (status_text Function.ready) ∷ []))
poll_ends_example =
    poll_ends [] (Function.scanning ∷ Function.verified ∷ []) [] (refl, (refl, tt))
      (stays Function.ready refl)

poll_test : poll_function_status [] answers ≡ (
  status_line (codes "SCANNING")
      ∷ status_line (codes "VERIFIED")
      ∷ changed (codes "SCANNING") (codes "VERIFIED")
      ∷ status_line (codes "READY")
      ∷ changed (codes "VERIFIED") (codes "READY")
      ∷ final_status (codes "READY") true
      ∷ [],
  returned (codes "READY"),
)
unfolding poll_function_status bytes_eq
poll_test = refl
