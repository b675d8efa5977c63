-- ===== src/Function.antt =====
-- internal/function: the record of an uploaded function and the store of these records.
-- A statement gets whether the database executes it; one that it does not execute changes nothing.
pub mod Laws
use oblak.Prelude.{
  ◌==◌, if◌then◌else◌, Result, ok, err, Bool, true, false, ◌&&◌, Option, none, some, List,
}
use oblak.Text.{Bytes}
use oblak.Sql.{DbError, unreachable, no_rows, Uuid, update, affected, select, find, insert}

pub data Status : Type 0 where
  quarantined extracted scanning detected verified preparing_environment ready failed : Status

pub Status-discrete : Discrete Status
Status-discrete = hlevel

pub record Function : Type 0 where
  pub function_id : Uuid
  pub user_id : Uuid
  pub status : Status
  pub archive_path : Bytes
  pub drive_path : Option Bytes

abbrev pub Functions : Type 0
Functions = List Function

abbrev pub key : Function → Uuid
key f = f.function_id

abbrev pub is_status : Status → Status → Bool
is_status quarantined quarantined = true
is_status extracted extracted = true
is_status scanning scanning = true
is_status detected detected = true
is_status verified verified = true
is_status preparing_environment preparing_environment = true
is_status ready ready = true
is_status failed failed = true
is_status _ _ = false

abbrev pub row : Uuid → Functions → Option Function
row = find key

-- `fresh` is the value of uuid.New().
unfoldable pub create_function :
    Bool → Uuid → Uuid → Status → Bytes → Functions → Functions × Result DbError Function
create_function up fresh user_id status archive_path t =
    let f : Function = record {
      function_id = fresh;
      user_id = user_id;
      status = status;
      archive_path = archive_path;
      drive_path = none;
    } in
    let (t', e) = insert key f t in
    if up then (t', elim e [ none ↦ ok f | some x ↦ err x ]) else (t, err unreachable)

abbrev with_status : Status → Function → Function
with_status s f = record f { status = s }

unfoldable pub update_function_status :
    Bool → Uuid → Status → Functions → Functions × Option DbError
update_function_status up id s t =
    if up
    then (update (λ f. key f == id && true) (with_status s) t, none)
    else (t, some unreachable)

unfoldable pub update_function_status_if :
    Bool → Uuid → Status → Status → Functions → Functions × Result DbError Bool
update_function_status_if up id from to t =
    let p = λ (f : Function). key f == id && is_status f.status from in
    if up then (update p (with_status to) t, ok (affected p t == 1)) else (t, err unreachable)

unfoldable pub update_function_status_and_drive_path :
    Bool → Uuid → Status → Bytes → Functions → Functions × Option DbError
update_function_status_and_drive_path up id s path t =
    if up
    then (
      update (λ f. key f == id && true) (λ f. record f { status = s; drive_path = some path }) t,
      none,
    )
    else (t, some unreachable)

unfoldable pub get_functions_by_user_id : Bool → Uuid → Functions → Result DbError Functions
get_functions_by_user_id up user t =
    if up then ok (select (λ f. f.user_id == user) t) else err unreachable

unfoldable pub get_function_by_id : Bool → Uuid → Functions → Result DbError Function
get_function_by_id up id t =
    if up then (elim (row id t) [ none ↦ err no_rows | some f ↦ ok f ]) else err unreachable

unfoldable pub get_function_status_by_id : Bool → Uuid → Functions → Result DbError Status
get_function_status_by_id up id t =
    if up then (elim (row id t) [ none ↦ err no_rows | some f ↦ ok f.status ]) else err unreachable

-- The status of a row, as the statements' laws see it.
abbrev pub status_of : Uuid → Functions → Option Status
status_of id t = elim (row id t) [ none ↦ none | some f ↦ some f.status ]
