-- ===== src/Function/Laws.antt =====
-- What the statements of the function store do to the row that they name, and to the others.
use oblak.Prelude.{
  Bool-cases, ==_iff, inl, inr, false, ap, ◌==◌, if◌then◌else◌, ok, ◌≡◌, refl, ◌≢◌, Bool, true,
  false, Option, none, some, arith,
}
use oblak.Sql.{Uuid, IsKeyed, find-update, affected-find, update-IsKeyed}
use oblak.Text.{Bytes}
use oblak.Function.{
  Status, Functions, key, is_status, update_function_status, update_function_status_if,
  update_function_status_and_drive_path, status_of,
}

-- The status of row `j` where `UPDATE` gave `s` to the row `id`, if it is there.
abbrev pub given : Status → Option Status → Option Status
given s none = none
given s (some _) = some s

-- The status behind a compare-and-set from `from` to `to`.
abbrev pub swapped : Status → Status → Option Status → Option Status
swapped from to none = none
swapped from to (some s) = some (if is_status s from then to else s)

abbrev pub has_status : Status → Option Status → Bool
has_status s none = false
has_status s (some s') = is_status s' s

module _ (id : Uuid) (t : Functions) where
  pub status-update :
      (s : Status) (j : Uuid)
      → status_of j (update_function_status true id s t).0
        ≡ (if id == j then given s (status_of j t) else status_of j t)
  unfolding update_function_status
  status-update s j =
      ground (arith, find-update key id (λ f. true) (λ f. record f { status = s }) (λ f. refl) j t)

  pub status-update_drive :
      (s : Status) (path : Bytes) (j : Uuid)
      → status_of j (update_function_status_and_drive_path true id s path t).0
        ≡ (if id == j then given s (status_of j t) else status_of j t)
  unfolding update_function_status_and_drive_path
  status-update_drive s path j = ground (
    arith,
    find-update key id (λ f. true) (λ f. record f { status = s; drive_path = some path })
        (λ f. refl) j t,
  )

  pub status-update_if :
      (from to : Status) (j : Uuid)
      → status_of j (update_function_status_if true id from to t).0
        ≡ (if id == j then swapped from to (status_of j t) else status_of j t)
  unfolding update_function_status_if
  status-update_if from to j = ground (
    arith,
    find-update key id (λ f. is_status f.status from) (λ f. record f { status = to }) (λ f. refl) j
        t,
  )

  claim-update_if :
      (from to : Status)
      → IsKeyed key t
      → (update_function_status_if true id from to t).1 ≡ ok (has_status from (status_of id t))
  unfolding update_function_status_if
  claim-update_if from to k = ground (
    arith,
    affected-find key id (λ f. is_status f.status from) (λ f. record f { status = to }) (λ f. refl)
        t k,
  )

  -- On a table with distinct ids, `UpdateFunctionStatusIf` reports a claim exactly when the row
  -- `id` had the status `from`; then that row has the status `to`, and without a claim its status
  -- is what it was. The status of every other row is unchanged.
  pub update_function_status_if_lem :
      (from to : Status)
      → IsKeyed key t
      → let (t', claimed) = update_function_status_if true id from to t in
        (claimed ≡ ok (has_status from (status_of id t)))
        × (status_of id t' ≡ swapped from to (status_of id t))
        × ((j : Uuid) → id ≢ j → status_of j t' ≡ status_of j t)
  update_function_status_if_lem from to k = (
    claim-update_if from to k,
    ground (arith, status-update_if from to id),
    λ j h. ground (arith, status-update_if from to j),
  )

swapped-not :
    (from to : Status) (o : Option Status) → has_status from o ≡ false → swapped from to o ≡ o
swapped-not from to none h = refl
swapped-not from to (some s) h = ground arith

swapped-has :
    (from to : Status) (o : Option Status) → has_status from o ≡ true → swapped from to o ≡ some to
swapped-has from to none h = cc
swapped-has from to (some s) h = ground arith

-- Without a claim no status changes, and a claim gives the row its new status.
pub unclaimed :
    (id : Uuid) (t : Functions) (from to : Status)
    → has_status from (status_of id t) ≡ false
    → (j : Uuid) → status_of j (update_function_status_if true id from to t).0 ≡ status_of j t
unclaimed id t from to h j = elim (Bool-cases (id == j)) [
  | inl e ↦
      let same = ap (λ i. status_of i t) ((==_iff id j).0 e) in
      ground (arith, status-update_if id t from to j, swapped-not from to (status_of id t) h)
  | inr n ↦ ground (arith, status-update_if id t from to j)
]

pub claimed_status :
    (id : Uuid) (t : Functions) (from to : Status)
    → has_status from (status_of id t) ≡ true
    → status_of id (update_function_status_if true id from to t).0 ≡ some to
claimed_status id t from to h =
    ground (arith, status-update_if id t from to id, swapped-has from to (status_of id t) h)

-- Every statement keeps the ids of a table distinct.
pub update_status-IsKeyed :
    (up : Bool) (id : Uuid) (s : Status) (t : Functions)
    → IsKeyed key t
    → IsKeyed key (update_function_status up id s t).0
unfolding update_function_status
update_status-IsKeyed true id s t k =
    update-IsKeyed key id (λ f. true) (λ f. record f { status = s }) (λ f. refl) t k
update_status-IsKeyed false id s t k = k
