-- ===== src/Server/Handlers/Owners.antt =====
-- internal/server/handler: what a user can read belongs to the user's functions.
use mathlib.Core.Path.{subst}
use oblak.Prelude.{
  ◌==◌, Bool-cases, All, Result, err, ok, ◌>>=◌, >>=-ok, ◌≡◌, refl, ap, ◌∙◌, ◌⊎◌, inl, inr, Bool,
  true, false, ◌&&◌, Option, none, some, List, [], ◌∷◌, arith,
}
use oblak.Text.{Bytes}
use oblak.Sql.{DbError, Uuid, select}
use oblak.Function.{Functions}
use oblak.Invocation
use oblak.Invocation.{Invocation, Invocations}
use oblak.Server.Logs.{LogLine, LogError}
use oblak.Server.Reads.{
  order_by_end, owns, first_row, get_invocation_details_for_user, All-order_by_end,
}
use oblak.Server.Handlers.{
  panicked, or_store, response, Details, extract_logs, details_of, get_invocation_details,
}

module _ {R : Type 0} where
  -- The rows of a table.
  abbrev pub IsRow : R → List R → Type 0
  IsRow r [] = ⊥
  IsRow r (q ∷ t) = (r ≡ q) ⊎ IsRow r t

  All-IsRow_under : (P : R → Type 0) (t : List R) → ((r : R) → IsRow r t → P r) → All P t
  All-IsRow_under P [] h = tt
  All-IsRow_under P (r ∷ t) h = (h r (inl refl), All-IsRow_under P t (λ q m. h q (inr m)))

  All-IsRow : (t : List R) → All (λ r. IsRow r t) t
  All-IsRow t = All-IsRow_under (λ r. IsRow r t) t (λ r m. m)

  select-All_and :
      (P : R → Type 0) (p : R → Bool) (t : List R)
      → All P t
      → All (λ r. P r × (p r ≡ true)) (select p t)
  unfolding select
  select-All_and P p [] h = tt
  select-All_and P p (r ∷ t) h = elim (Bool-cases (p r)) [
    | inl y ↦ rw y ((h.0, y), select-All_and P p t h.1)
    | inr n ↦ rw n (select-All_and P p t h.1)
  ]

-- An invocation of the table, of a function of the user, with the identifier.
abbrev pub IsOwned : Uuid → Uuid → Functions → Invocations → Invocation.Invocation → Type 0
IsOwned user id fs t i = IsRow i t × (owns user fs i ≡ true) × ((Invocation.key i == id) ≡ true)

first_row-All :
    (P : Invocation.Invocation → Type 0) (t : Invocations) {i : Invocation.Invocation}
    → All P t
    → first_row t ≡ some i
    → P i
first_row-All P [] h e = cc
first_row-All P (j ∷ t) h e = subst P (ground arith) h.0

found-IsOwned :
    (user id : Uuid) (fs : Functions) (t : Invocations) {i : Invocation.Invocation}
    → get_invocation_details_for_user true user id fs t ≡ ok (some i)
    → IsOwned user id fs t i
unfolding get_invocation_details_for_user
found-IsOwned user id fs t {i} h =
    let p = λ (i : Invocation.Invocation). owns user fs i && Invocation.key i == id in
    let found : IsRow i t × (p i ≡ true) =
      first_row-All (λ i. IsRow i t × (p i ≡ true)) (order_by_end (select p t))
        (All-order_by_end (λ i. IsRow i t × (p i ≡ true)) (select p t)
          (select-All_and (λ i. IsRow i t) p t (All-IsRow t)))
        (ground arith) in
    (found.0, ground (arith, found.1), ground (arith, found.1))

-- The details that a user gets.
abbrev pub AreOwned :
    (Bytes → Result LogError (List LogLine))
    → Uuid
    → Uuid
    → Functions
    → Invocations
    → Details
    → Type 0
AreOwned get_logs user id fs t d =
    (i : Invocation.Invocation) × IsOwned user id fs t i
    × (response i ≡ ok d.invocation)
    × (extract_logs get_logs i.log_path ≡ ok d.logs)

details_of-ok :
    (get_logs : Bytes → Result LogError (List LogLine)) (o : Option Invocation.Invocation)
    {d : Details}
    → details_of get_logs o ≡ ok d
    → (i : Invocation.Invocation) × (o ≡ some i)
      × (response i ≡ ok d.invocation)
      × (extract_logs get_logs i.log_path ≡ ok d.logs)
unfolding details_of
details_of-ok get_logs none h = absurd (ground arith)
details_of-ok get_logs (some i) {d} h =
    let (ls, logs_are, h') = >>=-ok (extract_logs get_logs i.log_path) _ h in
    let (r, answer_is, same) = >>=-ok (response i) _ h' in
    (i, refl, answer_is ∙ ground (arith, same), logs_are ∙ ground (arith, same))

or_store-ok : {A : Type 0} (r : Result DbError A) {a : A} → or_store r ≡ ok a → r ≡ ok a
or_store-ok (err e) h = cc
or_store-ok (ok a) h = ground (arith, h)

-- Details are answered only from a row of the table that has the identifier and whose function
-- belongs to the user: its identifier, status and times, and the lines of its log.
pub get_invocation_details-AreOwned :
    (get_logs : Bytes → Result LogError (List LogLine)) (up : Bool) (user id : Uuid)
    (fs : Functions) (t : Invocations) {d : Details}
    → get_invocation_details get_logs up (some user) id fs t ≡ ok d
    → AreOwned get_logs user id fs t d
unfolding get_invocation_details
get_invocation_details-AreOwned get_logs false user id fs t h =
    absurd (unfold get_invocation_details_for_user in cc)
get_invocation_details-AreOwned get_logs true user id fs t h =
    let (o, found, h') =
      >>=-ok (or_store (get_invocation_details_for_user true user id fs t)) (details_of get_logs)
        h in
    let (i, is_some_row, answer, logs) = details_of-ok get_logs o h' in
    (i, found-IsOwned user id fs t (or_store-ok _ found ∙ ap ok is_some_row), answer, logs)

select_none : {R : Type 0} (p : R → Bool) (t : List R) → All (λ r. p r ≡ false) t → select p t ≡ []
unfolding select
select_none p [] h = refl
select_none p (r ∷ t) h = rw (h.0, select_none p t h.1)

-- A user who asks for an invocation that is not one of theirs gets no answer: the handler panics.
pub get_invocation_details_foreign :
    (get_logs : Bytes → Result LogError (List LogLine)) (user id : Uuid) (fs : Functions)
    (t : Invocations)
    → All (λ i. (owns user fs i && Invocation.key i == id) ≡ false) t
    → get_invocation_details get_logs true (some user) id fs t ≡ err panicked
unfolding get_invocation_details get_invocation_details_for_user details_of order_by_end
get_invocation_details_foreign get_logs user id fs t h =
    let p = λ (i : Invocation.Invocation). owns user fs i && Invocation.key i == id in
    ap (λ rows. or_store (ok (first_row (order_by_end rows))) >>= details_of get_logs)
      (select_none p t h)
