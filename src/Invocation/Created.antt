-- ===== src/Invocation/Created.antt =====
-- internal/invocation/store.go: the row that CreateInvocation inserts.
use oblak.Prelude.{
  Option-cases, Result, err, ok, ℕ, ◌≡◌, sym, ◌∙◌, inl, inr, Bool, true, false, none, some, arith,
}
use oblak.Sql.{DbError, duplicate_key, Uuid, find-insert, insert_fresh, insert_taken}
use oblak.Invocation.{pending, Invocation, Invocations, key, row, create_invocation, status_of}

-- The row that a request creates.
abbrev pub created : Uuid → Uuid → ℕ → Invocation
created fresh function_id now = record {
  invocation_id = fresh;
  function_id = function_id;
  status = pending;
  invocation_time = some now;
  end_time = none;
  log_path = none;
}

pub create_invocation-fresh :
    (fresh function_id : Uuid) (now : ℕ) (t : Invocations)
    → row fresh t ≡ none
    → (create_invocation true fresh function_id now t).1 ≡ ok (created fresh function_id now)
unfolding create_invocation
create_invocation-fresh fresh function_id now t e =
    rw (insert_fresh key (created fresh function_id now) t e)

create_invocation-taken :
    (fresh function_id : Uuid) (now : ℕ) (t : Invocations) {i : Invocation}
    → row fresh t ≡ some i
    → (create_invocation true fresh function_id now t).1 ≡ err duplicate_key
unfolding create_invocation
create_invocation-taken fresh function_id now t e =
    rw (insert_taken key (created fresh function_id now) t e)

pub created_pending :
    (fresh function_id : Uuid) (now : ℕ) (t : Invocations)
    → row fresh t ≡ none
    → status_of fresh (create_invocation true fresh function_id now t).0 ≡ some pending
unfolding create_invocation
created_pending fresh function_id now t e =
    let stored = find-insert key (created fresh function_id now) t fresh e in ground (arith, stored)

-- A row that is created is there and pending.
pub created_status :
    (up : Bool) (fresh function_id : Uuid) (now : ℕ) (t : Invocations) {inv : Invocation}
    → (create_invocation up fresh function_id now t).1 ≡ ok inv
    → (inv.invocation_id ≡ fresh)
      × (status_of fresh (create_invocation up fresh function_id now t).0 ≡ some pending)
created_status false fresh function_id now t h = absurd (unfold create_invocation in cc)
created_status true fresh function_id now t {inv} h = elim (Option-cases (row fresh t)) [
  | inl e ↦
      let same : ◌≡◌ {A = Result DbError Invocation} (ok (created fresh function_id now)) (ok inv) =
        sym (create_invocation-fresh fresh function_id now t e) ∙ h in
      (ground (arith, same), created_pending fresh function_id now t e)
  | inr (i, e) ↦
      let clash : ◌≡◌ {A = Result DbError Invocation} (err duplicate_key) (ok inv) =
        sym (create_invocation-taken fresh function_id now t e) ∙ h in
      absurd (ground (arith, clash))
]
