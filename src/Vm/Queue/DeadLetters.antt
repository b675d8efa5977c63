-- ===== src/Vm/Queue/DeadLetters.antt =====
-- What the dead letter publisher of the build queue does to the table of functions.
use oblak.Prelude.{
  ◌==◌, if◌then◌else◌, All, ◌≡◌, refl, ap, ◌∙◌, Bool, true, false, ◌||◌, Option, none, some, List,
  [], ◌∷◌,
}
use oblak.Text.{Bytes}
use oblak.Sql.{Uuid}
use oblak.Function
use oblak.Function.{Status, Function, Functions}
use oblak.Function.Laws.{given, status-update}
use oblak.Vm.Service.{BuildMessage}
use oblak.Vm.Queue.{decode_payload, fail_function, publish_build}

-- A message that decodes names the function.
abbrev pub names_function : (Bytes → Option BuildMessage) → Uuid → Bytes → Bool
names_function decode id payload = elim (decode_payload decode payload) [
  | none ↦ false
  | some m ↦ m.function_id == id
]

-- Some message names the function.
abbrev pub is_named : (Bytes → Option BuildMessage) → Uuid → List (Bytes × Bool) → Bool
is_named decode id [] = false
is_named decode id ((payload, _) ∷ ms) = names_function decode id payload || is_named decode id ms

abbrev pub AllUp : List (Bytes × Bool) → Type 0
AllUp ms = All (λ m. m.1 ≡ true) ms

abbrev failed_if : Bool → Option Function.Status → Option Function.Status
failed_if b o = if b then given Function.Status.failed o else o

failed_if-failed_if :
    (a b : Bool) (o : Option Function.Status) → failed_if b (failed_if a o) ≡ failed_if (a || b) o
failed_if-failed_if false b o = refl
failed_if-failed_if true false o = refl
failed_if-failed_if true true none = refl
failed_if-failed_if true true (some s) = refl

fail_function-status :
    (o : Option BuildMessage) (t : Functions) (id : Uuid)
    → Function.status_of id (fail_function o true t)
      ≡ failed_if (elim o [ none ↦ false | some m ↦ m.function_id == id ]) (Function.status_of id t)
fail_function-status none t id = refl
fail_function-status (some m) t id = status-update m.function_id t Function.Status.failed id

-- Publishing to the dead letter queue of the builds, with the database executing the statements,
-- makes exactly the functions FAILED that are in the table and that some message which decodes names;
-- the status of every other function is unchanged.
pub publish_build_lem :
    (decode : Bytes → Option BuildMessage) (ms : List (Bytes × Bool)) (t : Functions) (id : Uuid)
    → AllUp ms
    → Function.status_of id (publish_build decode ms t) ≡ (
        if is_named decode id ms
        then given Function.Status.failed (Function.status_of id t)
        else Function.status_of id t)
unfolding publish_build
publish_build_lem decode [] t id h = refl
publish_build_lem decode ((payload, up) ∷ ms) t id h =
    let o = decode_payload decode payload in
    let rest = is_named decode id ms in
    ap (λ u. Function.status_of id (publish_build decode ms (fail_function o u t))) h.0
    ∙ publish_build_lem decode ms (fail_function o true t) id h.1
    ∙ ap (failed_if rest) (fail_function-status o t id)
    ∙ failed_if-failed_if (names_function decode id payload) rest (Function.status_of id t)
