-- ===== src/Vm/Machine/Release.antt =====
-- internal/vm/vm/vm.go: a machine is stopped at most once, and nothing of it is left in the end.
use mathlib.Core.Path.{subst}
use oblak.Prelude.{◌≤◌, ◌≡◌, refl, sym, ◌⊎◌, inl, inr, Bool, true, false, arith}
use oblak.Vm.Machine.{
  MicroVm, stop, World, started, Change, context_ends, powers_off, caller_stops, watcher_stops,
  watcher_ends, Leads, unchanged, and_then,
}

-- Everything that the handle holds is released.
pub record IsReleased (vm : MicroVm) : Type 0 where
  pub ended : vm.running ≡ false
  pub closed : vm.log_open ≡ false
  pub removed : vm.jailer_dir ≡ false
  pub revoked : vm.cancelled ≡ true

-- A machine that was not stopped is watched and holds its log and its directory; one that was stopped
-- was stopped by one call and is released.
abbrev pub IsLive : World → Type 0
IsLive w =
    (w.vm.stopped_once ≡ false)
    × (w.vm.stop_calls ≡ 0)
    × (w.watching ≡ true)
    × (w.vm.log_open ≡ true)
    × (w.vm.jailer_dir ≡ true)
    × (w.vm.cancelled ≡ false)

abbrev pub IsStopped : World → Type 0
IsStopped w = (w.vm.stopped_once ≡ true) × (w.vm.stop_calls ≡ 1) × IsReleased w.vm

abbrev pub IsConsistent : World → Type 0
IsConsistent w = IsLive w ⊎ IsStopped w

stop-IsReleased :
    (stop_ok : Bool) (vm : MicroVm) → vm.stopped_once ≡ false → IsReleased (stop stop_ok vm).0
unfolding stop
stop-IsReleased stop_ok vm h = ground arith

stop_lem :
    (stop_ok : Bool) (w : World)
    → IsConsistent w
    → IsStopped (record w { vm = (stop stop_ok w.vm).0 })
unfolding stop
stop_lem stop_ok w (inl l) =
    (ground (arith, l.0), ground (arith, l.0, l.1), stop-IsReleased stop_ok w.vm l.0)
stop_lem stop_ok w (inr (s, c, r)) =
    let same : (stop stop_ok w.vm).0 ≡ w.vm = ground (arith, s) in
    subst (λ (vm : MicroVm). (vm.stopped_once ≡ true) × (vm.stop_calls ≡ 1) × IsReleased vm)
      (sym same) (s, c, r)

Change-IsConsistent : {w u : World} → Change w u → IsConsistent w → IsConsistent u
Change-IsConsistent (context_ends w) c = c
Change-IsConsistent (powers_off w) (inl l) = inl l
Change-IsConsistent (powers_off w) (inr (s, c, r)) =
    inr (s, c, record { ended = refl; closed = r.closed; removed = r.removed; revoked = r.revoked })
Change-IsConsistent (caller_stops w stop_ok) c = inr (stop_lem stop_ok w c)
Change-IsConsistent (watcher_stops w stop_ok watching done) c = inr (stop_lem stop_ok w c)
Change-IsConsistent (watcher_ends w watching gone) (inl l) = absurd (ground (arith, gone, l.5))
Change-IsConsistent (watcher_ends w watching gone) (inr s) = inr s

Leads-IsConsistent : {w : World} → Leads started w → IsConsistent w
Leads-IsConsistent unchanged = inl (refl, refl, refl, refl, refl, refl)
Leads-IsConsistent (and_then r step) = Change-IsConsistent step (Leads-IsConsistent r)

-- However the context, the machine, its caller and its watcher interleave, StopVMM is called at most
-- once.
pub stop_calls-le : {w : World} → Leads started w → w.vm.stop_calls ≤ 1
stop_calls-le r = elim (Leads-IsConsistent r) [
  | inl l ↦ omega (arith, l)
  | inr s ↦ omega (arith, s)
]

-- Once the context of the caller has ended, the machine is released, or its watcher can take a step
-- that releases it, whatever StopVMM answers.
pub Leads-IsReleased :
    {w : World} (stop_ok : Bool)
    → Leads started w
    → w.ctx_done ≡ true
    → IsReleased w.vm ⊎ ((u : World) × Change w u × IsReleased u.vm)
Leads-IsReleased {w} stop_ok r done = elim (Leads-IsConsistent r) [
  | inl l ↦ inr (
    record w { vm = (stop stop_ok w.vm).0; watching = false },
    watcher_stops w stop_ok l.2 done,
    stop-IsReleased stop_ok w.vm l.0,
  )
  | inr s ↦ inl s.2
]
