-- ===== src/Invocation.antt =====
-- internal/invocation: the record of one run of a function and the store of these records.
-- A statement gets whether the database executes it; one that it does not execute changes nothing.
pub mod Laws
pub mod Created
use oblak.Prelude.{
  ◌==◌, if◌then◌else◌, Result, ok, err, ℕ, Bool, true, false, ◌&&◌, Option, none, some, List,
}
use oblak.Text.{Bytes}
use oblak.Sql.{DbError, unreachable, Uuid, update, affected, find, insert}

pub data Status : Type 0 where
  pending executing done failed : Status

pub record Invocation : Type 0 where
  pub invocation_id : Uuid
  pub function_id : Uuid
  pub status : Status
  pub invocation_time : Option ℕ
  pub end_time : Option ℕ
  pub log_path : Option Bytes

abbrev pub Invocations : Type 0
Invocations = List Invocation

abbrev pub key : Invocation → Uuid
key i = i.invocation_id

abbrev pub is_status : Status → Status → Bool
is_status pending pending = true
is_status executing executing = true
is_status done done = true
is_status failed failed = true
is_status _ _ = false

abbrev pub row : Uuid → Invocations → Option Invocation
row = find key

-- `fresh` is the value of uuid.New().
unfoldable pub create_invocation :
    Bool → Uuid → Uuid → ℕ → Invocations → Invocations × Result DbError Invocation
create_invocation up fresh function_id invocation_time t =
    let inv : Invocation = record {
      invocation_id = fresh;
      function_id = function_id;
      status = pending;
      invocation_time = some invocation_time;
      end_time = none;
      log_path = none;
    } in
    let (t', e) = insert key inv t in
    if up then (t', elim e [ none ↦ ok inv | some x ↦ err x ]) else (t, err unreachable)

abbrev with_status : Status → Invocation → Invocation
with_status s i = record i { status = s }

unfoldable pub update_invocation_status :
    Bool → Uuid → Status → Invocations → Invocations × Option DbError
update_invocation_status up id s t =
    if up
    then (update (λ i. key i == id && true) (with_status s) t, none)
    else (t, some unreachable)

unfoldable pub update_invocation_status_if :
    Bool → Uuid → Status → Status → Invocations → Invocations × Result DbError Bool
update_invocation_status_if up id from to t =
    let p = λ (i : Invocation). key i == id && is_status i.status from in
    if up then (update p (with_status to) t, ok (affected p t == 1)) else (t, err unreachable)

abbrev finished : Status → Bytes → ℕ → Invocation → Invocation
finished s path time i = record i { status = s; log_path = some path; end_time = some time }

unfoldable pub update_invocation_status_and_log_path_and_end_time :
    Bool → Uuid → Status → Bytes → ℕ → Invocations → Invocations × Option DbError
update_invocation_status_and_log_path_and_end_time up id s path time t =
    if up
    then (update (λ i. key i == id && true) (finished s path time) t, none)
    else (t, some unreachable)

-- The status of a row, as the statements' laws see it.
abbrev pub status_of : Uuid → Invocations → Option Status
status_of id t = elim (row id t) [ none ↦ none | some i ↦ some i.status ]
