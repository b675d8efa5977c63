-- ===== src/Server/Reads.antt =====
-- internal/invocation/store.go and internal/function/store.go: the joins that the server reads for a
-- user. Rows with equal end times keep the order of the table, which PostgreSQL leaves open.
use mathlib.Core.List.{map}
use mathlib.Core.Path.{subst}
use oblak.Prelude.{
  leb, ◌==◌, if◌then◌else◌, if_both, if_false, if_true, Bool-cases, All, Result, err, ok, ℕ, ◌≡◌,
  refl, sym, inl, inr, Bool, true, false, ◌&&◌, Option, none, some, List, [], ◌∷◌, arith,
}
use oblak.Sql.{DbError, unreachable, Uuid, select}
use oblak.Function
use oblak.Function.{Status, Function, Functions}
use oblak.Invocation
use oblak.Invocation.{Invocation, Invocations}

-- ORDER BY end_time: a row that has not ended comes last.
abbrev pub ends_by : Option ℕ → Option ℕ → Bool
ends_by o none = true
ends_by none (some t) = false
ends_by (some s) (some t) = leb s t

insert_row : Invocation.Invocation → Invocations → Invocations
insert_row i [] = i ∷ []
insert_row i (j ∷ t) = if ends_by i.end_time j.end_time then i ∷ j ∷ t else j ∷ insert_row i t

unfoldable pub order_by_end : Invocations → Invocations
unfolding insert_row
order_by_end [] = []
order_by_end (i ∷ t) = insert_row i (order_by_end t)

-- The join with the functions, and the test of their owner.
abbrev pub is_owner : Uuid → Option Function.Function → Bool
is_owner user none = false
is_owner user (some f) = f.user_id == user

abbrev pub owns : Uuid → Functions → Invocation.Invocation → Bool
owns user fs i = is_owner user (Function.row i.function_id fs)

-- The columns that are selected: the path of the log is not among them.
abbrev pub without_log : Invocation.Invocation → Invocation.Invocation
without_log i = record i { log_path = none }

unfoldable pub get_invocations_for_user_and_function :
    Bool → Uuid → Uuid → Functions → Invocations → Result DbError Invocations
unfolding order_by_end
get_invocations_for_user_and_function up user function_id fs t =
    if up
    then ok (
        map without_log
          (order_by_end (select (λ i. owns user fs i && i.function_id == function_id) t)))
    else err unreachable

abbrev pub first_row : Invocations → Option Invocation.Invocation
first_row [] = none
first_row (i ∷ t) = some i

-- `none` is the zero Invocation, which is returned where no row fits.
unfoldable pub get_invocation_details_for_user :
    Bool → Uuid → Uuid → Functions → Invocations → Result DbError (Option Invocation.Invocation)
unfolding order_by_end
get_invocation_details_for_user up user invocation_id fs t =
    if up
    then ok (
        first_row
          (order_by_end (select (λ i. owns user fs i && Invocation.key i == invocation_id) t)))
    else err unreachable

pub record FunctionWithLatestInvocation : Type 0 where
  pub function_id : Uuid
  pub user_id : Uuid
  pub status : Function.Status
  pub latest : Option Invocation.Invocation

-- DISTINCT ON (function_id) … ORDER BY end_time DESC, which puts a row that has not ended first.
abbrev later_row : Invocation.Invocation → Option Invocation.Invocation → Invocation.Invocation
later_row i none = i
later_row i (some j) = if ends_by j.end_time i.end_time then i else j

unfoldable pub latest_of : Uuid → Invocations → Option Invocation.Invocation
latest_of id [] = none
latest_of id (i ∷ t) =
    let rest = latest_of id t in if i.function_id == id then some (later_row i rest) else rest

abbrev pub with_latest : Invocations → Function.Function → FunctionWithLatestInvocation
with_latest t f = record {
  function_id = f.function_id;
  user_id = f.user_id;
  status = f.status;
  latest = latest_of f.function_id t;
}

unfoldable pub get_functions_by_user_with_latest_execution :
    Bool → Uuid → Functions → Invocations → Result DbError (List FunctionWithLatestInvocation)
unfolding latest_of
get_functions_by_user_with_latest_execution up user fs t =
    if up then ok (map (with_latest t) (select (λ f. f.user_id == user) fs)) else err unreachable

-- The path of an end time in the answer of the list: LastExecution.
abbrev pub last_end : Option Invocation.Invocation → Option ℕ
last_end none = none
last_end (some i) = i.end_time

All-insert_row {ℓ} :
    (P : Invocation.Invocation → Type ℓ) (i : Invocation.Invocation) (t : Invocations)
    → P i
    → All P t
    → All P (insert_row i t)
unfolding insert_row
All-insert_row P i [] h k = (h, tt)
All-insert_row P i (j ∷ t) h k =
    if_both (All P) (ends_by i.end_time j.end_time) (h, k) (k.0, All-insert_row P i t h k.1)

pub All-order_by_end {ℓ} :
    (P : Invocation.Invocation → Type ℓ) (t : Invocations) → All P t → All P (order_by_end t)
unfolding order_by_end
All-order_by_end P [] h = tt
All-order_by_end P (i ∷ t) h = All-insert_row P i (order_by_end t) h.0 (All-order_by_end P t h.1)

pub select-All : {R : Type 0} (p : R → Bool) (t : List R) → All (λ r. p r ≡ true) (select p t)
unfolding select
select-All p [] = tt
select-All p (r ∷ t) = elim (Bool-cases (p r)) [
  | inl y ↦ rw y (y, select-All p t)
  | inr n ↦ rw n (select-All p t)
]

ends_by_trans : (a b c : Option ℕ) → ends_by a b ≡ true → ends_by b c ≡ true → ends_by a c ≡ true
ends_by_trans a b none h k = refl
ends_by_trans none (some t) (some u) h k = cc
ends_by_trans (some s) (some t) (some u) h k = ground arith
ends_by_trans (some s) none (some u) h k = cc
ends_by_trans none none (some u) h k = cc

ends_by_total : (a b : Option ℕ) → ends_by a b ≡ false → ends_by b a ≡ true
ends_by_total a none h = cc
ends_by_total none (some t) h = refl
ends_by_total (some s) (some t) h = ground arith

-- The row ends no later than the row `i`, or `i` has not ended.
abbrev pub EndsBy : Uuid → Invocation.Invocation → Invocation.Invocation → Type 0
EndsBy id i j = j.function_id ≡ id → ends_by j.end_time i.end_time ≡ true

EndsBy-later :
    (id : Uuid) (i k : Invocation.Invocation) (t : Invocations)
    → ends_by k.end_time i.end_time ≡ true
    → All (EndsBy id k) t
    → All (EndsBy id i) t
EndsBy-later id i k [] h r = tt
EndsBy-later id i k (j ∷ t) h r =
    (λ e. ends_by_trans j.end_time k.end_time i.end_time (r.0 e) h, EndsBy-later id i k t h r.1)

latest_of-none :
    (id : Uuid) (i : Invocation.Invocation) (t : Invocations)
    → latest_of id t ≡ none
    → All (EndsBy id i) t
unfolding latest_of
latest_of-none id i [] h = tt
latest_of-none id i (j ∷ t) h = elim (Bool-cases (j.function_id == id)) [
  | inl y ↦ absurd (ground arith)
  | inr n ↦ (λ e. absurd (ground arith), latest_of-none id i t (ground arith))
]

ends_by_self : (a : Option ℕ) → ends_by a a ≡ true
ends_by_self none = refl
ends_by_self (some t) = ground arith

later_row-EndsBy :
    (id : Uuid) (j : Invocation.Invocation) (o : Option Invocation.Invocation) (t : Invocations)
    → ((k : Invocation.Invocation) → o ≡ some k → All (EndsBy id k) t)
    → (o ≡ none → All (EndsBy id j) t)
    → All (EndsBy id (later_row j o)) (j ∷ t)
later_row-EndsBy id j none t some' none' = (λ e. ends_by_self j.end_time, none' refl)
later_row-EndsBy id j (some k) t some' none' = elim (Bool-cases (ends_by k.end_time j.end_time)) [
  | inl y ↦
      subst (λ x. All (EndsBy id x) (j ∷ t)) (sym (if_true j k y))
        (λ e. ends_by_self j.end_time, EndsBy-later id j k t y (some' k refl))
  | inr n ↦
      subst (λ x. All (EndsBy id x) (j ∷ t)) (sym (if_false j k n))
        (λ e. ends_by_total k.end_time j.end_time n, some' k refl)
]

-- No row of the function ends later than the one that is taken for its latest, and one that has not
-- ended is taken before all that have.
pub latest_of-EndsBy :
    (id : Uuid) (t : Invocations) (i : Invocation.Invocation)
    → latest_of id t ≡ some i
    → All (EndsBy id i) t
unfolding latest_of
latest_of-EndsBy id [] i e = cc
latest_of-EndsBy id (j ∷ t) i e = elim (Bool-cases (j.function_id == id)) [
  | inl y ↦
      let same : later_row j (latest_of id t) ≡ i = ground (arith, e) in
      subst (λ k. All (EndsBy id k) (j ∷ t)) same
        (later_row-EndsBy id j (latest_of id t) t (λ k h. latest_of-EndsBy id t k h)
          (λ h. latest_of-none id j t h))
  | inr n ↦ (λ h. absurd (ground arith), latest_of-EndsBy id t i (ground arith))
]
