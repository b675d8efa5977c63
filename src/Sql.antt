-- ===== src/Sql.antt =====
-- The SQL statements of the stores, on a table as the list of its rows: what
-- internal/function/store.go and internal/invocation/store.go ask of PostgreSQL.
use mathlib.Core.Option
use mathlib.Core.Path.{subst}
use oblak.Prelude.{
  ◌==◌, if◌then◌else◌, ℕ, ◌+◌, ◌≡◌, refl, Bool, ◌&&◌, Option, none, some, List, [], ◌∷◌, ◌++◌,
  arith, Option-cases, inl, inr,
}

-- What a statement that does not run returns; `no_rows` is sql.ErrNoRows.
pub data DbError : Type 0 where
  unreachable duplicate_key no_rows : DbError

abbrev pub Uuid : Type 0
Uuid = ℕ

module _ {R : Type 0} where
  -- UPDATE … SET f WHERE p, on every row that fits.
  unfoldable pub update : (R → Bool) → (R → R) → List R → List R
  update p f [] = []
  update p f (r ∷ t) = (if p r then f r else r) ∷ update p f t

  -- RowsAffected of that statement.
  unfoldable pub affected : (R → Bool) → List R → ℕ
  affected p [] = 0
  affected p (r ∷ t) = (if p r then 1 else 0) + affected p t

  -- SELECT … WHERE p: all rows, and the first.
  unfoldable pub select : (R → Bool) → List R → List R
  select p [] = []
  select p (r ∷ t) = let rest = select p t in if p r then r ∷ rest else rest

  unfoldable pub select_one : (R → Bool) → List R → Option R
  select_one p [] = none
  select_one p (r ∷ t) = let rest = select_one p t in if p r then some r else rest

-- Tables with a primary key.
module _ {R : Type 0} (key : R → ℕ) where
  abbrev pub find : ℕ → List R → Option R
  find i = select_one (λ r. key r == i)

  -- INSERT, refused where the key is taken.
  unfoldable pub insert : R → List R → List R × Option DbError
  insert r t = elim (find (key r) t) [
    | none ↦ (t ++ r ∷ [], none)
    | some _ ↦ (t, some duplicate_key)
  ]

  -- The keys of a table are distinct.
  abbrev pub IsKeyed : List R → Type 0
  IsKeyed [] = Unit
  IsKeyed (r ∷ t) = (find (key r) t ≡ none) × IsKeyed t

  module _ (i : ℕ) (q : R → Bool) (f : R → R) (same : (r : R) → key (f r) ≡ key r) where
    -- WHERE key = i AND q
    abbrev where_key : R → Bool
    where_key r = key r == i && q r

    pub find-update :
        (j : ℕ) (t : List R)
        → find j (update where_key f t)
          ≡ (if i == j then Option.map (λ r. if q r then f r else r) (find j t) else find j t)
    unfolding update select_one
    find-update j [] = ground arith
    find-update j (r ∷ t) = ground (arith, same r, find-update j t)

    pub affected-find :
        (t : List R)
        → IsKeyed t
        → affected where_key t ≡ elim (find i t) [ none ↦ 0 | some r ↦ if q r then 1 else 0 ]
    unfolding affected select_one
    affected-find [] h = refl
    affected-find (r ∷ t) h =
        ground (arith, affected-find t h.1, λ (e : key r ≡ i). subst (λ k. find k t ≡ none) e h.0)

    key_same : (r : R) → key (if where_key r then f r else r) ≡ key r
    key_same r = ground (arith, same r)

    pub update-IsKeyed : (t : List R) → IsKeyed t → IsKeyed (update where_key f t)
    unfolding update
    update-IsKeyed [] h = tt
    update-IsKeyed (r ∷ t) h =
        (rw (key_same r, find-update (key r) t) (ground arith), update-IsKeyed t h.1)

  find-append :
      (r : R) (t : List R) (j : ℕ)
      → find (key r) t ≡ none
      → find j (t ++ r ∷ []) ≡ (if key r == j then some r else find j t)
  unfolding select_one
  find-append r [] j h = refl
  find-append r (x ∷ t) j h = ground (arith, find-append r t j)

  pub find-insert :
      (r : R) (t : List R) (j : ℕ)
      → find (key r) t ≡ none
      → find j (insert r t).0 ≡ (if key r == j then some r else find j t)
  unfolding insert
  find-insert r t j h = rw (h, insert) (find-append r t j h)

  append-IsKeyed : (r : R) (t : List R) → find (key r) t ≡ none → IsKeyed t → IsKeyed (t ++ r ∷ [])
  unfolding select_one
  append-IsKeyed r [] h k = (refl, tt)
  append-IsKeyed r (x ∷ t) h k = (
    rw (find-append r t (key x) (ground arith)) (ground arith),
    append-IsKeyed r t (ground arith) k.1,
  )

  pub insert_fresh : (r : R) (t : List R) → find (key r) t ≡ none → insert r t ≡ (t ++ r ∷ [], none)
  unfolding insert
  insert_fresh r t h = rw (h, insert)

  pub insert_taken :
      (r : R) (t : List R) {q : R} → find (key r) t ≡ some q → insert r t ≡ (t, some duplicate_key)
  unfolding insert
  insert_taken r t h = rw (h, insert)

  pub insert-IsKeyed : (r : R) (t : List R) → IsKeyed t → IsKeyed (insert r t).0
  unfolding insert
  insert-IsKeyed r t k = elim (Option-cases (find (key r) t)) [
    | inl e ↦ rw (e, insert) (append-IsKeyed r t e k)
    | inr (x, e) ↦ rw (e, insert) k
  ]

  -- A row that is there is found behind every `INSERT`.
  pub find-insert_found :
      (r : R) (t : List R) (j : ℕ) {x : R} → find j t ≡ some x → find j (insert r t).0 ≡ some x
  unfolding insert
  find-insert_found r t j h = elim (Option-cases (find (key r) t)) [
    | inl e ↦
        ground (arith, find-insert r t j e, λ (k : key r ≡ j). subst (λ i. find i t ≡ none) k e)
    | inr (y, e) ↦ rw (e, insert) h
  ]
