-- ===== src/Server/Handlers/Runs.antt =====
-- internal/server/handler/execute.go: the messages and the invocations of the requests to execute.
use mathlib.Core.Path.{subst}
use oblak.Prelude.{
  ltb, if_both, if_false, Option-cases, length, All, Result, err, ok, ℕ, ◌≤◌, ◌≡◌, refl, sym, ap,
  ◌∙◌, inl, inr, Bool, true, false, Option, none, some, [], arith,
}
use oblak.Text.{Bytes}
use oblak.Sql.{DbError, Uuid}
use oblak.Function
use oblak.Function.{Function, Functions}
use oblak.Invocation
use oblak.Invocation.{Invocation, Invocations}
use oblak.Vm.Service.{ExecuteMessage}
use oblak.Server.Handlers.{
  payload_too_large, no_drive, max_payload_size, Executed, refused, publish_execution, after_create,
  with_function, execute_lambda,
}
use oblak.Invocation.Created.{create_invocation-fresh, created_pending, created_status}

-- What a message to the machines says of the function and of the table.
abbrev pub Names : Uuid → Functions → Invocations → Bytes → ExecuteMessage → Type 0
Names id fs t payload m =
    (f : Function.Function) × (drive : Bytes) × (Function.row id fs ≡ some f)
    × (f.drive_path ≡ some drive)
    × (m.code_object_name ≡ f.archive_path)
    × (m.dependencies_object_name ≡ drive)
    × (m.payload ≡ payload)
    × (Invocation.status_of m.invocation_id t ≡ some Invocation.pending)

-- Every message that a request publishes.
abbrev pub AllNames : Uuid → Functions → Bytes → Executed → Type 0
AllNames id fs payload r = All (Names id fs r.invocations payload) r.published

module _ (id : Uuid) (fs : Functions) (payload : Bytes) (publish_ok : Bool) where
  publish-AllNames :
      (f : Function.Function) (o : Option Bytes) (t : Invocations) (inv : Invocation.Invocation)
      → Function.row id fs ≡ some f
      → f.drive_path ≡ o
      → Invocation.status_of inv.invocation_id t ≡ some Invocation.pending
      → AllNames id fs payload (publish_execution publish_ok payload f.archive_path o t inv)
  unfolding publish_execution
  publish-AllNames f none t inv r d s = tt
  publish-AllNames f (some drive) t inv r d s =
      if_both (AllNames id fs payload) publish_ok ((f, drive, r, d, refl, refl, refl, s), tt) tt

  after_create-AllNames :
      (f : Function.Function) (p : Invocations × Result DbError Invocation.Invocation)
      → Function.row id fs ≡ some f
      → ((inv : Invocation.Invocation)
          → p.1 ≡ ok inv
          → Invocation.status_of inv.invocation_id p.0 ≡ some Invocation.pending)
      → AllNames id fs payload (after_create publish_ok payload f p)
  after_create-AllNames f (t, err e) r s = tt
  after_create-AllNames f (t, ok inv) r s =
      publish-AllNames f f.drive_path t inv r refl (s inv refl)

  with_function-AllNames :
      (up : Bool) (fresh : Uuid) (now : ℕ) (t : Invocations) (r : Result DbError Function.Function)
      → ((f : Function.Function) → r ≡ ok f → Function.row id fs ≡ some f)
      → AllNames id fs payload (with_function up publish_ok payload fresh now t r)
  with_function-AllNames up fresh now t (err e) h = tt
  with_function-AllNames up fresh now t (ok f) h =
      after_create-AllNames f (Invocation.create_invocation up fresh f.function_id now t) (h f refl)
        λ inv e.
          let (same, stored) = created_status up fresh f.function_id now t e in
          subst
            (λ k.
              Invocation.status_of k (Invocation.create_invocation up fresh f.function_id now t).0
              ≡ some Invocation.pending)
            (sym same) stored

get_function_by_id-ok :
    (up : Bool) (id : Uuid) (fs : Functions) {f : Function.Function}
    → Function.get_function_by_id up id fs ≡ ok f
    → Function.row id fs ≡ some f
unfolding Function.get_function_by_id
get_function_by_id-ok up id fs h = elim (Option-cases (Function.row id fs)) [
  | inl e ↦ absurd (ground (arith, h, e))
  | inr (g, e) ↦ e ∙ ground (arith, h, e)
]

-- A message is published only for a function that is in the table and has a drive: it names the
-- archive and the drive of the function, the payload of the request and an invocation that is in the
-- table, and pending.
pub execute_lambda-AllNames :
    (up publish_ok : Bool) (payload : Bytes) (id fresh : Uuid) (now : ℕ) (fs : Functions)
    (t : Invocations)
    → AllNames id fs payload (execute_lambda up publish_ok (some payload) (some id) fresh now fs t)
unfolding execute_lambda
execute_lambda-AllNames up publish_ok payload id fresh now fs t =
    if_both (AllNames id fs payload) (ltb max_payload_size (length payload)) tt (
      with_function-AllNames id fs payload publish_ok up fresh now t
        (Function.get_function_by_id up id fs) (λ f h. get_function_by_id-ok up id fs h))

get_function_by_id-row :
    (id : Uuid) (fs : Functions) {f : Function.Function}
    → Function.row id fs ≡ some f
    → Function.get_function_by_id true id fs ≡ ok f
unfolding Function.get_function_by_id
get_function_by_id-row id fs h = rw h

after_create-no_drive :
    (publish_ok : Bool) (payload : Bytes) (f : Function.Function)
    (p : Invocations × Result DbError Invocation.Invocation) {inv : Invocation.Invocation}
    → p.1 ≡ ok inv
    → f.drive_path ≡ none
    → after_create publish_ok payload f p ≡ refused p.0 no_drive
after_create-no_drive publish_ok payload f (t, err e) h d = cc
after_create-no_drive publish_ok payload f (t, ok inv) h d =
    ap (λ o. publish_execution publish_ok payload f.archive_path o t inv) d
    ∙ unfold publish_execution in refl

-- A request for a function that has no drive yet fails, and leaves a pending invocation that no
-- message names.
pub execute_lambda_stranded :
    (publish_ok : Bool) (payload : Bytes) (id fresh : Uuid) (now : ℕ) (fs : Functions)
    (t : Invocations) {f : Function.Function}
    → length payload ≤ max_payload_size
    → Function.row id fs ≡ some f
    → f.drive_path ≡ none
    → Invocation.row fresh t ≡ none
    → let r = execute_lambda true publish_ok (some payload) (some id) fresh now fs t in
      (r.reply ≡ err no_drive)
      × (r.published ≡ [])
      × (Invocation.status_of fresh r.invocations ≡ some Invocation.pending)
unfolding execute_lambda
execute_lambda_stranded publish_ok payload id fresh now fs t {f} l r d n =
    let created' = Invocation.create_invocation true fresh f.function_id now t in
    let small : ltb max_payload_size (length payload) ≡ false = ground (arith, l) in
    let same =
      if_false (refused t payload_too_large)
        (with_function true publish_ok payload fresh now t (Function.get_function_by_id true id fs))
        small
      ∙ ap (with_function true publish_ok payload fresh now t) (get_function_by_id-row id fs r)
      ∙ after_create-no_drive publish_ok payload f created'
          (create_invocation-fresh fresh f.function_id now t n) d in
    (
      ap (λ x. x.reply) same,
      ap (λ x. x.published) same,
      ap (λ x. Invocation.status_of fresh x.invocations) same
          ∙ created_pending fresh f.function_id now t n,
    )
