-- ===== src/Vm/Runner/Cleanup.antt =====
-- The temporary files behind a run: none, where they can be removed.
use mathlib.Core.Path.{subst}
use oblak.Prelude.{
  if_both, if_true, if_false, Bool-cases, ◌⊎◌, ◌||◌, ◌+◌, All, ◌≤◌, if◌then◌else◌, Option-cases,
  Result, ok, err, ℕ, ◌≡◌, refl, sym, ap, ◌∙◌, inl, inr, Bool, true, false, Option, none, some,
  List, [], ◌∷◌, arith,
}
use oblak.Vm.Drive.{Host, DriveMount, remove_file, remove, clean_up, root_drive}
use oblak.Vm.Drive.Leaks.{IsFresh, Owns, older, remove_newest, drives-Owns, minio_drive-Owns}
use oblak.Vm.Runner.{
  with_vm_log, RunError, Event, RunCalls, Run, clean_up_drives, on_drive, start_and_run,
  run_machine, execute, prepare_environment,
}
use oblak.Text.{Bytes}
use oblak.AgentProto.{Message}

remove_file_comm :
    (p q : ℕ) (fs : List ℕ) → remove_file p (remove_file q fs) ≡ remove_file q (remove_file p fs)
unfolding remove_file
remove_file_comm p q [] = refl
remove_file_comm p q (f ∷ fs) = ground (arith, remove_file_comm p q fs)

-- What a drive's callback removes.
abbrev files_without : DriveMount → List ℕ → List ℕ
files_without d fs = elim d.path [
  | none ↦ fs
  | some p ↦ if d.can_clean_up then remove_file p fs else fs
]

-- Every callback removes its file.
abbrev AreRemovable : List DriveMount → (ℕ → Bool) → Type 0
AreRemovable ds stuck = All (λ d. (p : ℕ) → d.path ≡ some p → stuck p ≡ false) ds

clean_up-files :
    (d : DriveMount) (h : Host)
    → ((p : ℕ) → d.path ≡ some p → h.stuck p ≡ false)
    → (clean_up d h).files ≡ files_without d h.files
unfolding clean_up remove
clean_up-files d h k = elim (Option-cases d.path) [
  | inl e ↦ ground arith
  | inr (p, e) ↦ ground (arith, k p e)
]

clean_up-stuck : (d : DriveMount) (h : Host) → (clean_up d h).stuck ≡ h.stuck
unfolding clean_up remove
clean_up-stuck d h = elim (Option-cases d.path) [
  | inl e ↦ rw e refl
  | inr (p, e) ↦ rw e (if_both (λ (x : Host). x.stuck ≡ h.stuck) d.can_clean_up refl refl)
]

files_without_comm :
    (d e : DriveMount) (fs : List ℕ)
    → files_without d (files_without e fs) ≡ files_without e (files_without d fs)
files_without_comm d e fs = elim (Option-cases d.path) [
  | inl a ↦ ground arith
  | inr (p, a) ↦ elim (Option-cases e.path) [
    | inl b ↦ ground arith
    | inr (q, b) ↦ ground (arith, remove_file_comm p q fs)
  ]
]

abbrev files_without_all : List DriveMount → List ℕ → List ℕ
files_without_all [] fs = fs
files_without_all (d ∷ ds) fs = files_without_all ds (files_without d fs)

clean_up_drives-files :
    (ds : List DriveMount) (h : Host)
    → AreRemovable ds h.stuck
    → (clean_up_drives ds h).files ≡ files_without_all ds h.files
unfolding clean_up_drives
clean_up_drives-files [] h k = refl
clean_up_drives-files (d ∷ ds) h k =
    clean_up_drives-files ds (clean_up d h) (subst (AreRemovable ds) (sym (clean_up-stuck d h)) k.1)
    ∙ ap (files_without_all ds) (clean_up-files d h k.0)

-- The first drive may go last.
files_without_all-last :
    (d : DriveMount) (ds : List DriveMount) (fs : List ℕ)
    → files_without_all (d ∷ ds) fs ≡ files_without d (files_without_all ds fs)
files_without_all-last d [] fs = refl
files_without_all-last d (e ∷ ds) fs =
    ap (files_without_all ds) (files_without_comm e d fs)
    ∙ files_without_all-last d ds (files_without e fs)

-- The drives `ds` were made in this order from `h` on, each with a file of its own.
abbrev Made : Host → Host → List DriveMount → Type 0
Made h h' [] = h' ≡ h
Made h h' (d ∷ ds) = (h1 : Host) × Owns h (h1, some d) × Made h1 h' ds

Made-files :
    (h h' : Host) (ds : List DriveMount)
    → IsFresh h
    → Made h h' ds
    → files_without_all ds h'.files ≡ h.files
Made-files h h' [] k m = ap (λ x. x.files) m
Made-files h h' (d ∷ ds) k (h1, o, m) =
    let (p, path, can, lo, hi, fs) = o.own k in
    let rest = Made-files h1 h' ds (o.fresh k) m in
    files_without_all-last d ds h'.files
    ∙ ap (files_without d) (rest ∙ fs)
    ∙ ground (arith, remove_newest p h.files (older h.next p h.files lo k.0))

Made-stuck : (h h' : Host) (ds : List DriveMount) → Made h h' ds → h'.stuck ≡ h.stuck
Made-stuck h h' [] m = ap (λ x. x.stuck) m
Made-stuck h h' (d ∷ ds) (h1, o, m) = Made-stuck h1 h' ds m ∙ o.same.0

Made-AreRemovable :
    (h h' : Host) (ds : List DriveMount) → IsFresh h → Made h h' ds → AreRemovable ds h.stuck
Made-AreRemovable h h' [] k m = tt
Made-AreRemovable h h' (d ∷ ds) k (h1, o, m) =
    let (p, path, can, lo, hi, fs) = o.own k in
    (
      λ q e. k.1 q (subst (λ x. h.next ≤ x) (cc (path, e)) lo),
      subst (AreRemovable ds) o.same.0 (Made-AreRemovable h1 h' ds (o.fresh k) m),
    )

-- The callbacks on a host with the files of `h'`.
pub clean_up_drives-Made :
    (h h' : Host) (ds : List DriveMount) (g : Host)
    → IsFresh h
    → Made h h' ds
    → g.files ≡ h'.files
    → g.stuck ≡ h.stuck
    → (clean_up_drives ds g).files ≡ h.files
clean_up_drives-Made h h' ds g k m e u =
    clean_up_drives-files ds g (subst (AreRemovable ds) (sym u) (Made-AreRemovable h h' ds k m))
    ∙ ap (files_without_all ds) e
    ∙ Made-files h h' ds k m

start_and_run-host :
    (starts : Bool) (finish : Message → List Event × Option RunError)
    (replied : List Event × Result RunError Message) (ds : List DriveMount) (h : Host)
    → (start_and_run starts finish replied ds h).0 ≡ clean_up_drives ds h
start_and_run-host false finish replied ds h = refl
start_and_run-host true finish (events, err e) ds h = refl
start_and_run-host true finish (events, ok m) ds h = refl

run_machine-host :
    (c : RunCalls) (request : Message) (log_name : Bytes)
    (finish : Message → List Event × Option RunError) (ds : List DriveMount) (h : Host)
    → (run_machine c request log_name finish ds h).0 ≡ clean_up_drives ds (with_vm_log c h)
unfolding run_machine
run_machine-host c request log_name finish ds h =
    start_and_run-host c.start_ok finish _ ds (with_vm_log c h)

root_drive-clean_up : (h : Host) → clean_up root_drive h ≡ h
unfolding clean_up
root_drive-clean_up h = refl

-- Only the drives with a file of their own count.
run-files :
    (c : RunCalls) (request : Message) (log_name : Bytes)
    (finish : Message → List Event × Option RunError) (ds : List DriveMount) (h h' : Host)
    → IsFresh h
    → Made h h' ds
    → (run_machine c request log_name finish (root_drive ∷ ds) h').0.files ≡ h.files
unfolding clean_up_drives
run-files c request log_name finish ds h h' k m =
    ap (λ x. x.files)
      (run_machine-host c request log_name finish (root_drive ∷ ds) h'
        ∙ ap (clean_up_drives ds) (root_drive-clean_up (with_vm_log c h')))
    ∙ clean_up_drives-Made h h' ds (with_vm_log c h') k m refl (Made-stuck h h' ds m)

-- A call for a drive, behind the drives `ds`: where it fails the files are those of `h`.
on_drive-files :
    (h h1 : Host) (ds : List DriveMount) (r : Host × Option DriveMount) (e : RunError)
    (next : DriveMount → Host → Run)
    → IsFresh h
    → Made h h1 ds
    → IsFresh h1
    → Owns h1 r
    → ((d : DriveMount) (h2 : Host) → Owns h1 (h2, some d) → (next d h2).0.files ≡ h.files)
    → (on_drive r e ds next).0.files ≡ h.files
on_drive-files h h1 ds (h2, none) e next k m k1 o f =
    clean_up_drives-Made h h1 ds h2 k m (o.own k1) (o.same.0 ∙ Made-stuck h h1 ds m)
on_drive-files h h1 ds (h2, some d) e next k m k1 o f = f d h2 o

execute-files :
    (c : RunCalls) (log_name payload : Bytes) (h : Host)
    → IsFresh h
    → c.deps.close_ok ≡ true
    → (execute c log_name payload h).0.files ≡ h.files
unfolding execute
execute-files c log_name payload h k closes =
    on_drive-files h h [] _ _ _ k refl k (drives-Owns c.code h).0 λ code h1 o1.
      let made1 : Made h h1 (code ∷ []) = (h1, o1, refl) in
      on_drive-files h h1 (code ∷ []) _ _ _ k made1 (o1.fresh k) (minio_drive-Owns c.deps h1 closes)
        λ deps h2 o2.
          let k2 = o2.fresh (o1.fresh k) in
          let made2 : Made h h2 (code ∷ deps ∷ []) = (h1, o1, (h2, o2, refl)) in
          on_drive-files h h2 (code ∷ deps ∷ []) _ _ _ k made2 k2 (drives-Owns c.tmp h2).2
            λ tmp h3 o3.
              run-files c _ _ _ (code ∷ deps ∷ tmp ∷ []) h h3 k (h1, o1, (h2, o2, (h3, o3, refl)))

clean_up-logs : (d : DriveMount) (h : Host) → (clean_up d h).vm_logs ≡ h.vm_logs
unfolding clean_up remove
clean_up-logs d h = elim (Option-cases d.path) [
  | inl e ↦ rw e refl
  | inr (p, e) ↦ rw e (if_both (λ (x : Host). x.vm_logs ≡ h.vm_logs) d.can_clean_up refl refl)
]

clean_up_drives-logs :
    (ds : List DriveMount) (h : Host) → (clean_up_drives ds h).vm_logs ≡ h.vm_logs
unfolding clean_up_drives
clean_up_drives-logs [] h = refl
clean_up_drives-logs (d ∷ ds) h = clean_up_drives-logs ds (clean_up d h) ∙ clean_up-logs d h

-- At most the log file of one machine is new.
abbrev pub AddsLog : Host → Host → Type 0
AddsLog h g = (g.vm_logs ≡ h.vm_logs) ⊎ (g.vm_logs ≡ h.vm_logs + 1)

run_machine-AddsLog :
    (c : RunCalls) (request : Message) (log_name : Bytes)
    (finish : Message → List Event × Option RunError) (ds : List DriveMount) (h h' : Host)
    → h'.vm_logs ≡ h.vm_logs
    → AddsLog h (run_machine c request log_name finish ds h').0
run_machine-AddsLog c request log_name finish ds h h' e =
    let logs =
      ap (λ (x : Host). x.vm_logs) (run_machine-host c request log_name finish ds h')
      ∙ clean_up_drives-logs ds (with_vm_log c h') in
    elim (Bool-cases (c.start_ok || c.vm_log_ok)) [
      | inl y ↦ inr (logs ∙ if_true _ _ y ∙ ap (λ n. n + 1) e)
      | inr n ↦ inl (logs ∙ if_false _ _ n ∙ e)
    ]

on_drive-AddsLog :
    (h h1 : Host) (ds : List DriveMount) (r : Host × Option DriveMount) (e : RunError)
    (next : DriveMount → Host → Run)
    → h1.vm_logs ≡ h.vm_logs
    → Owns h1 r
    → ((d : DriveMount) (h2 : Host) → h2.vm_logs ≡ h.vm_logs → AddsLog h (next d h2).0)
    → AddsLog h (on_drive r e ds next).0
on_drive-AddsLog h h1 ds (h2, none) e next s o f = inl (clean_up_drives-logs ds h2 ∙ o.same.1 ∙ s)
on_drive-AddsLog h h1 ds (h2, some d) e next s o f = f d h2 (o.same.1 ∙ s)

execute-AddsLog :
    (c : RunCalls) (log_name payload : Bytes) (h : Host)
    → c.deps.close_ok ≡ true
    → AddsLog h (execute c log_name payload h).0
unfolding execute
execute-AddsLog c log_name payload h closes =
    on_drive-AddsLog h h [] _ _ _ refl (drives-Owns c.code h).0 λ code h1 e1.
      on_drive-AddsLog h h1 (code ∷ []) _ _ _ e1 (minio_drive-Owns c.deps h1 closes) λ deps h2 e2.
        on_drive-AddsLog h h2 (code ∷ deps ∷ []) _ _ _ e2 (drives-Owns c.tmp h2).2
          λ tmp h3 e3. run_machine-AddsLog c _ _ _ _ h h3 e3

-- On a host whose names are older than the next one and on which the new files can be removed, an
-- execution leaves the temporary files of its drives as they were, whichever other call fails, where the
-- file for the dependency drive can be closed once it is created; and it leaves at most one more log
-- file of a machine.
pub execute-restores :
    (c : RunCalls) (log_name payload : Bytes) (h : Host)
    → IsFresh h
    → c.deps.close_ok ≡ true
    → ((execute c log_name payload h).0.files ≡ h.files)
      × AddsLog h (execute c log_name payload h).0
execute-restores c log_name payload h k closes =
    (execute-files c log_name payload h k closes, execute-AddsLog c log_name payload h closes)

-- There, the preparation of an environment leaves the temporary files of its drives as they were,
-- whichever other calls fail.
pub prepare_environment-restores :
    (c : RunCalls) (drive_name log_name : Bytes) (h : Host)
    → IsFresh h
    → (prepare_environment c drive_name log_name h).0.files ≡ h.files
unfolding prepare_environment
prepare_environment-restores c drive_name log_name h k =
    on_drive-files h h [] _ _ _ k refl k (drives-Owns c.code h).0 λ code h1 o1.
      let made1 : Made h h1 (code ∷ []) = (h1, o1, refl) in
      on_drive-files h h1 (code ∷ []) _ _ _ k made1 (o1.fresh k) (drives-Owns c.deps h1).1
        λ deps h2 o2. run-files c _ _ _ (code ∷ deps ∷ []) h h2 k (h1, o1, (h2, o2, refl))
