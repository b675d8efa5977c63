-- ===== src/Vm/Service/Workers.antt =====
-- Workers that execute invocations side by side. The statements of internal/vm/service/exec.go take
-- effect one at a time, and a worker holds an invocation from its claim to the statement that settles
-- it; the dead letter publisher and the creation of invocations may come in between. The machine of a run
-- that fails can outlive the hold, since its watcher stops it later.
use mathlib.Core.Path.{subst}
use oblak.Prelude.{
  ◌==◌, if◌then◌else◌, if_both, if_false, ==_iff, Bool-cases, Option-cases, Result, ok, ℕ, ◌+◌, ◌-◌,
  ◌≤◌, ◌≡◌, refl, sym, ap, ◌∙◌, ◌≢◌, inl, inr, Bool, true, false, not, Option, none, some, arith,
}
use oblak.Text.{Bytes}
use oblak.Sql.{DbError, Uuid, IsKeyed}
use oblak.Invocation.{
  Status, pending, executing, done, failed, Invocations, key, is_status, create_invocation,
  update_invocation_status, update_invocation_status_if,
  update_invocation_status_and_log_path_and_end_time, status_of,
}
use oblak.Invocation.Laws.{
  given, swapped, has_status, status-update, status-update_finished, status-update_if,
  update_invocation_status_if_lem, update_status-IsKeyed, update_status_if-IsKeyed,
  finished-IsKeyed, create-IsKeyed, status-create,
}

-- The table, and how many workers hold each invocation.
pub record Shared : Type 0 where
  pub invocations : Invocations
  pub holding : Uuid → ℕ

abbrev pub claim : Bool → Uuid → Invocations → Invocations × Result DbError Bool
claim up id t = update_invocation_status_if up id pending executing t

abbrev pub settle : Bool → Option (Bytes × ℕ) → Uuid → Invocations → Invocations
settle up none id t = (update_invocation_status up id pending t).0
settle up (some (log_name, end_time)) id t =
    (update_invocation_status_and_log_path_and_end_time up id done log_name end_time t).0

abbrev pub one_more : Uuid → (Uuid → ℕ) → Uuid → ℕ
one_more id holding j = if id == j then holding j + 1 else holding j

abbrev pub one_less : Uuid → (Uuid → ℕ) → Uuid → ℕ
one_less id holding j = if id == j then holding j - 1 else holding j

pub data Step : Shared → Shared → Type 0 where
  -- A worker gets the claim of an invocation, and runs it from then on.
  start :
      {t : Invocations} {holding : Uuid → ℕ} (up : Bool) (id : Uuid)
      → (claim up id t).1 ≡ ok true
      → Step
          (record { invocations = t; holding = holding })
          (record { invocations = (claim up id t).0; holding = one_more id holding })
  -- A worker does not get the claim.
  skip :
      {t : Invocations} {holding : Uuid → ℕ} (up : Bool) (id : Uuid)
      → (claim up id t).1 ≢ ok true
      → Step
          (record { invocations = t; holding = holding })
          (record { invocations = (claim up id t).0; holding = holding })
  -- The run of a worker has returned, with a log or with an error, and the worker settles the status.
  finish :
      {t : Invocations} {holding : Uuid → ℕ} (up : Bool) (id : Uuid) (logged : Option (Bytes × ℕ))
      → 1 ≤ holding id
      → Step
          (record { invocations = t; holding = holding })
          (record { invocations = settle up logged id t; holding = one_less id holding })
  -- A message goes to the dead letter queue.
  poison :
      {t : Invocations} {holding : Uuid → ℕ} (up : Bool) (id : Uuid)
      → Step
          (record { invocations = t; holding = holding })
          (record { invocations = (update_invocation_status up id failed t).0; holding = holding })
  -- The server records a new invocation.
  create :
      {t : Invocations} {holding : Uuid → ℕ} (up : Bool) (fresh function_id : Uuid) (time : ℕ)
      → Step
          (record { invocations = t; holding = holding })
          (record {
            invocations = (create_invocation up fresh function_id time t).0;
            holding = holding;
          })

pub data Reach (s : Shared) : Shared → Type 0 where
  here : Reach s s
  next : {t u : Shared} → Reach s t → Step t u → Reach s u

-- A row that no worker can claim.
abbrev pub is_held : Option Status → Bool
is_held none = false
is_held (some s) = not (is_status s pending)

pub record IsExclusive (s : Shared) : Type 0 where
  pub keyed : IsKeyed key s.invocations
  pub single : (id : Uuid) → s.holding id ≤ 1
  pub held : (id : Uuid) → 1 ≤ s.holding id → is_held (status_of id s.invocations) ≡ true

abbrev Held : Option Status → Type 0
Held o = is_held o ≡ true

Held-swapped : (o : Option Status) → Held o → Held (swapped pending executing o)
Held-swapped none h = cc
Held-swapped (some s) h = if_both (λ x. Held (some x)) (is_status s pending) refl h

Held-given : (o : Option Status) (s : Status) → Held (some s) → Held o → Held (given s o)
Held-given none s a h = cc
Held-given (some x) s a h = a

Held-claimed :
    (o : Option Status)
    → has_status pending o ≡ true
    → (is_held o ≡ false) × Held (swapped pending executing o)
Held-claimed none h = cc
Held-claimed (some s) h = (ap not h, rw h refl)

module _ (t : Invocations) (id : Uuid) where
  claim-Held : (up : Bool) (j : Uuid) → Held (status_of j t) → Held (status_of j (claim up id t).0)
  claim-Held false j h = unfold update_invocation_status_if in h
  claim-Held true j h =
      subst Held (sym (status-update_if id t pending executing j))
        (if_both Held (id == j) (Held-swapped _ h) h)

  settle-Held :
      (up : Bool) (logged : Option (Bytes × ℕ)) (j : Uuid)
      → (id == j) ≡ false
      → Held (status_of j t)
      → Held (status_of j (settle up logged id t))
  settle-Held false none j n h = unfold update_invocation_status in h
  settle-Held true none j n h = subst Held (sym (status-update id t pending j ∙ if_false _ _ n)) h
  settle-Held false (some l) j n h = unfold update_invocation_status_and_log_path_and_end_time in h
  settle-Held true (some l) j n h =
      subst Held (sym (status-update_finished id t done l.0 l.1 j ∙ if_false _ _ n)) h

  poison-Held :
      (up : Bool) (j : Uuid)
      → Held (status_of j t)
      → Held (status_of j (update_invocation_status up id failed t).0)
  poison-Held false j h = unfold update_invocation_status in h
  poison-Held true j h =
      subst Held (sym (status-update id t failed j))
        (if_both Held (id == j) (Held-given _ failed refl h) h)

  -- A claim that succeeds finds the row pending, and holds it from then on.
  claim-won :
      (up : Bool)
      → IsKeyed key t
      → (claim up id t).1 ≡ ok true
      → (is_held (status_of id t) ≡ false) × Held (status_of id (claim up id t).0)
  claim-won false k e = unfold update_invocation_status_if in cc e
  claim-won true k e =
      let (claimed, now, others) = update_invocation_status_if_lem id t pending executing k in
      let b : ok (has_status pending (status_of id t)) ≡ ok true = sym claimed ∙ e in
      let (free, taken) = Held-claimed (status_of id t) (cc b) in (free, subst Held (sym now) taken)

create-Held :
    (up : Bool) (fresh function_id : Uuid) (time : ℕ) (t : Invocations) (j : Uuid)
    → Held (status_of j t)
    → Held (status_of j (create_invocation up fresh function_id time t).0)
create-Held up fresh function_id time t j h = elim (Option-cases (status_of j t)) [
  | inl e ↦ absurd (cc (h, e))
  | inr (s, e) ↦ subst Held (e ∙ sym (status-create up fresh function_id time t j s e)) h
]

settle-IsKeyed :
    (up : Bool) (logged : Option (Bytes × ℕ)) (id : Uuid) (t : Invocations)
    → IsKeyed key t
    → IsKeyed key (settle up logged id t)
settle-IsKeyed up none id t k = update_status-IsKeyed up id pending t k
settle-IsKeyed up (some l) id t k = finished-IsKeyed up id done l.0 l.1 t k

Step-IsExclusive : {s u : Shared} → Step s u → IsExclusive s → IsExclusive u
Step-IsExclusive (start {t} {holding} up id e) x =
    let (free, taken) = claim-won t id up x.keyed e in
    let idle : holding id ≡ 0 = ground (arith, x.single id, x.held id) in
    record {
      keyed = update_status_if-IsKeyed up id pending executing t x.keyed;
      single = λ j. ground (arith, x.single j);
      held = λ j h. elim (Bool-cases (id == j)) [
        | inl y ↦ subst (λ i. Held (status_of i (claim up id t).0)) ((==_iff id j).0 y) taken
        | inr n ↦ claim-Held t id up j (x.held j (ground arith))
      ];
    }
Step-IsExclusive (skip {t} {holding} up id e) x = record {
  keyed = update_status_if-IsKeyed up id pending executing t x.keyed;
  single = x.single;
  held = λ j h. claim-Held t id up j (x.held j h);
}
Step-IsExclusive (finish {t} {holding} up id logged h) x = record {
  keyed = settle-IsKeyed up logged id t x.keyed;
  single = λ j. ground (arith, x.single j);
  held = λ j g. elim (Bool-cases (id == j)) [
    | inl y ↦ absurd (ground (arith, x.single j))
    | inr n ↦ settle-Held t id up logged j n (x.held j (ground arith))
  ];
}
Step-IsExclusive (poison {t} {holding} up id) x = record {
  keyed = update_status-IsKeyed up id failed t x.keyed;
  single = x.single;
  held = λ j h. poison-Held t id up j (x.held j h);
}
Step-IsExclusive (create {t} {holding} up fresh function_id time) x = record {
  keyed = create-IsKeyed up fresh function_id time t x.keyed;
  single = x.single;
  held = λ j h. create-Held up fresh function_id time t j (x.held j h);
}

Reach-IsExclusive : {s u : Shared} → IsExclusive s → Reach s u → IsExclusive u
Reach-IsExclusive x here = x
Reach-IsExclusive x (next r st) = Step-IsExclusive st (Reach-IsExclusive x r)

-- From a table with distinct ids and no worker at work, however the workers' statements, the dead letter
-- publisher and new invocations are interleaved: no invocation is held by two workers at a time, and one
-- that is held is not PENDING.
pub at_most_one_worker :
    {u : Shared} (t : Invocations)
    → IsKeyed key t
    → Reach (record { invocations = t; holding = λ _. 0 }) u
    → (id : Uuid)
    → (u.holding id ≤ 1) × (1 ≤ u.holding id → is_held (status_of id u.invocations) ≡ true)
at_most_one_worker t k r id =
    let x =
      Reach-IsExclusive
        (record { keyed = k; single = λ _. omega arith; held = λ _ h. absurd (omega arith) }) r in
    (x.single id, x.held id)
