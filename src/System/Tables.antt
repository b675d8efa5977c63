-- ===== src/System/Tables.antt =====
-- What the statements of the programs do to the archives and the drives of the functions.
use mathlib.Core.Option
use oblak.Prelude.{
  ◌==◌, if◌then◌else◌, is_some, ◌≡◌, refl, sym, ap, ◌∙◌, inl, inr, Bool, true, false, ◌&&◌, ◌||◌,
  some, arith, ◌≢◌, Option-cases, Bool-cases,
}
use oblak.Text.{Bytes}
use oblak.Sql.{Uuid, find-update, update, find-insert, find-insert_found, insert_taken}
use oblak.Server.Upload.Kept.{saved_row}
use oblak.Function
use oblak.Function.{Function, Functions, Status, is_status, row, key}

-- A function that a request can execute, or that says so.
abbrev pub is_served : Function.Function → Bool
is_served f = is_status f.status Function.Status.ready || is_some f.drive_path

-- Every function of `t` is in `t'`, with its archive.
abbrev pub Keeps : Functions → Functions → Type 0
Keeps t t' =
    (id : Uuid) (f : Function.Function)
    → row id t ≡ some f
    → (g : Function.Function) × (row id t' ≡ some g) × (g.archive_path ≡ f.archive_path)

-- Every function that is served in `t'` is served in `t`, with its archive.
abbrev pub IsQuiet : Functions → Functions → Type 0
IsQuiet t t' =
    (id : Uuid) (g : Function.Function)
    → row id t' ≡ some g
    → is_served g ≡ true
    → (f : Function.Function) × (row id t ≡ some f)
      × (f.archive_path ≡ g.archive_path)
      × (is_served f ≡ true)

pub Keeps-refl : (t : Functions) → Keeps t t
Keeps-refl t id f h = (f, h, refl)

pub IsQuiet-refl : (t : Functions) → IsQuiet t t
IsQuiet-refl t id g h s = (g, h, refl, s)

pub Keeps-trans : (t u v : Functions) → Keeps t u → Keeps u v → Keeps t v
Keeps-trans t u v h k id f e =
    let (g, at_u, same) = h id f e in let (x, at_v, same') = k id g at_u in (x, at_v, same' ∙ same)

pub IsQuiet-trans : (t u v : Functions) → IsQuiet t u → IsQuiet u v → IsQuiet t v
IsQuiet-trans t u v h k id g e s =
    let (f, at_u, same, served) = k id g e s in
    let (x, at_t, same', served') = h id f at_u served in (x, at_t, same' ∙ same, served')

-- UPDATE … SET g WHERE key = id AND q, with an assignment that leaves the keys and the archives alone.
module _ (id : Uuid) (q : Function.Function → Bool) (g : Function.Function → Function.Function)
    (same_key : (f : Function.Function) → key (g f) ≡ key f)
    (same_path : (f : Function.Function) → (g f).archive_path ≡ f.archive_path)
    (t : Functions) where
  updated : Functions
  updated = update (λ f. key f == id && q f) g t

  abbrev changed : Uuid → Function.Function → Function.Function
  changed j f = if id == j then (if q f then g f else f) else f

  row-updated : (j : Uuid) → row j updated ≡ Option.map (changed j) (row j t)
  unfolding updated
  row-updated j = ground (arith, find-update key id q g same_key j t)

  changed_path : (j : Uuid) (f : Function.Function) → (changed j f).archive_path ≡ f.archive_path
  changed_path j f = ground (arith, same_path f)

  update-Keeps : Keeps t updated
  update-Keeps j f h =
      (changed j f, row-updated j ∙ ap (Option.map (changed j)) h, changed_path j f)

  update-IsQuiet :
      ((f : Function.Function) → is_served (g f) ≡ true → is_served f ≡ true) → IsQuiet t updated
  update-IsQuiet served j x h s = elim (Option-cases (row j t)) [
    | inl e ↦ absurd (cc (row-updated j, e, h))
    | inr (f, e) ↦
        let same : changed j f ≡ x = ground (arith, row-updated j, e, h) in
        (
          f,
          e,
          sym (changed_path j f) ∙ ap (λ y. y.archive_path) same,
          ground (arith, served f, ap is_served same, s),
        )
  ]

-- A statement that neither loses an archive nor lets a function be served.
abbrev pub IsHarmless : Functions → Functions → Type 0
IsHarmless t t' = Keeps t t' × IsQuiet t t'

pub IsHarmless-refl : (t : Functions) → IsHarmless t t
IsHarmless-refl t = (Keeps-refl t, IsQuiet-refl t)

pub IsHarmless-trans : (t u v : Functions) → IsHarmless t u → IsHarmless u v → IsHarmless t v
IsHarmless-trans t u v h k = (Keeps-trans t u v h.0 k.0, IsQuiet-trans t u v h.1 k.1)

module _ (id : Uuid) (to : Function.Status) (t : Functions) where
  status-Keeps : (up : Bool) → Keeps t (Function.update_function_status up id to t).0
  unfolding Function.update_function_status updated
  status-Keeps true =
      update-Keeps id (λ f. true) (λ f. record f { status = to }) (λ f. refl) (λ f. refl) t
  status-Keeps false = Keeps-refl t

  module _ (unready : is_status to Function.Status.ready ≡ false) where
    drops_ready :
        (f : Function.Function) → is_served (record f { status = to }) ≡ true → is_served f ≡ true
    drops_ready f h = ground (arith, unready, h)

    pub status-IsHarmless :
        (up : Bool) → IsHarmless t (Function.update_function_status up id to t).0
    unfolding Function.update_function_status updated
    status-IsHarmless true =
        let set = λ (f : Function.Function). record f { status = to } in
        (status-Keeps true, update-IsQuiet id (λ f. true) set (λ f. refl) (λ f. refl) t drops_ready)
    status-IsHarmless false = IsHarmless-refl t

    pub status_if-IsHarmless :
        (up : Bool) (from : Function.Status)
        → IsHarmless t (Function.update_function_status_if up id from to t).0
    unfolding Function.update_function_status_if updated
    status_if-IsHarmless true from =
        let q = λ (f : Function.Function). is_status f.status from in
        let set = λ (f : Function.Function). record f { status = to } in
        (
          update-Keeps id q set (λ f. refl) (λ f. refl) t,
          update-IsQuiet id q set (λ f. refl) (λ f. refl) t drops_ready,
        )
    status_if-IsHarmless false from = IsHarmless-refl t

  pub drive-Keeps :
      (up : Bool) (path : Bytes)
      → Keeps t (Function.update_function_status_and_drive_path up id to path t).0
  unfolding Function.update_function_status_and_drive_path updated
  drive-Keeps true path =
      update-Keeps id (λ f. true) (λ f. record f { status = to; drive_path = some path })
        (λ f. refl) (λ f. refl) t
  drive-Keeps false path = Keeps-refl t

  -- The drive of one function: another function that is served was served before.
  pub drive_others :
      (up : Bool) (path : Bytes) (j : Uuid) (g : Function.Function)
      → id ≢ j
      → row j (Function.update_function_status_and_drive_path up id to path t).0 ≡ some g
      → row j t ≡ some g
  unfolding Function.update_function_status_and_drive_path
  drive_others true path j g n h =
      let set = λ (f : Function.Function). record f { status = to; drive_path = some path } in
      ground (arith, find-update key id (λ f. true) set (λ f. refl) j t, h)
  drive_others false path j g n h = h

-- A new function is not served.
pub create-IsHarmless :
    (up : Bool) (fresh user : Uuid) (path : Bytes) (t : Functions)
    → IsHarmless t (Function.create_function up fresh user Function.quarantined path t).0
unfolding Function.create_function
create-IsHarmless false fresh user path t = IsHarmless-refl t
create-IsHarmless true fresh user path t =
    let f = saved_row fresh user path in
    elim (Option-cases (row fresh t)) [
      | inr (g, e) ↦ rw (insert_taken key f t e) (IsHarmless-refl t)
      | inl e ↦ (
        λ j x h. (x, find-insert_found key f t j h, refl),
        λ j g h s. elim (Bool-cases (fresh == j)) [
          | inl same ↦ absurd (ground (arith, find-insert key f t j e, h, s))
          | inr other ↦ (g, ground (arith, find-insert key f t j e, h), refl, s)
        ],
      )
    ]
