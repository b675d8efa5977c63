-- ===== src/Server/Buckets/Ready.antt =====
-- internal/server/filestore/initializer.go: the buckets after a set-up that succeeds.
use mathlib.Core.Path.{subst}
use oblak.Prelude.{
  if_false, if_true, Bool-cases, Option-cases, All, Result, err, ok, >>=-ok, ℕ, ◌≡◌, refl, sym, ap,
  ◌∙◌, inl, inr, true, false, none, some, List, [], ◌∷◌, arith,
}
use oblak.Server.Buckets.{
  Bucket, quarantine, functions, drives, logs, retention_days, BucketState, Store, StoreAnswers,
  BucketError, ensure, set_policy, set_expiration, initialize_bucket, is_bucket, write,
  initialize_each, buckets, initialize_buckets,
}

-- A bucket after its set-up: it is there, nobody but the program reads it if its policy could be
-- removed, its objects expire as they are meant to, and never if that could be set.
pub record IsReady (b : Bucket) (a : StoreAnswers) (s : BucketState) : Type 0 where
  pub there : s.present ≡ true
  pub closed : a.policy_set ≡ true → s.public ≡ false
  pub expiring : (days : ℕ) → retention_days b ≡ some days → s.expires ≡ some days
  pub lasting : retention_days b ≡ none → a.lifecycle_set ≡ true → s.expires ≡ none

ensure-present :
    (b : Bucket) (a : StoreAnswers) (s : BucketState) {s' : BucketState}
    → ensure b a s ≡ ok s'
    → s'.present ≡ true
unfolding ensure
ensure-present b a s h = ground (arith, h)

policy-closed :
    (b : Bucket) (a : StoreAnswers) (s : BucketState) {s' : BucketState}
    → set_policy b false a s ≡ ok s'
    → (s'.present ≡ s.present) × (a.policy_set ≡ true → s'.public ≡ false)
unfolding set_policy
policy-closed b a s h = (ground (arith, h), λ p. ground (arith, h))

initialize_bucket-parts :
    (b : Bucket) (a : StoreAnswers) (s : BucketState) {s' : BucketState}
    → initialize_bucket b a s ≡ ok s'
    → (s1 : BucketState) × (s2 : BucketState) × (ensure b a s ≡ ok s1)
      × (set_policy b false a s1 ≡ ok s2)
      × (set_expiration b (retention_days b) a s2 ≡ ok s')
unfolding initialize_bucket
initialize_bucket-parts b a s h =
    let (s1, e1, h1) = >>=-ok (ensure b a s) _ h in
    let (s2, e2, h2) =
      >>=-ok (set_policy b false a s1) (set_expiration b (retention_days b) a) h1 in
    (s1, s2, e1, e2, h2)

expiration_set :
    (b : Bucket) (days : ℕ) (a : StoreAnswers) (s : BucketState) {s' : BucketState}
    → set_expiration b (some days) a s ≡ ok s'
    → (s'.present ≡ s.present) × (s'.public ≡ s.public) × (s'.expires ≡ some days)
unfolding set_expiration
expiration_set b days a s h = (ground (arith, h), ground (arith, h), ground (arith, h))

expiration_removed :
    (b : Bucket) (a : StoreAnswers) (s : BucketState) {s' : BucketState}
    → set_expiration b none a s ≡ ok s'
    → (s'.present ≡ s.present)
      × (s'.public ≡ s.public)
      × (a.lifecycle_set ≡ true → s'.expires ≡ none)
unfolding set_expiration
expiration_removed b a s h = (ground (arith, h), ground (arith, h), λ p. ground (arith, h))

-- What the last step leaves, for each bucket.
kept_long :
    (b : Bucket) (a : StoreAnswers) (s2 : BucketState) {s' : BucketState}
    → retention_days b ≡ none
    → s2.present ≡ true
    → (a.policy_set ≡ true → s2.public ≡ false)
    → set_expiration b (retention_days b) a s2 ≡ ok s'
    → IsReady b a s'
kept_long b a s2 r there closed h =
    let (p, q, x) = expiration_removed b a s2 (ap (λ o. set_expiration b o a s2) (sym r) ∙ h) in
    record {
      there = p ∙ there;
      closed = λ k. q ∙ closed k;
      expiring = λ days e. absurd (ground (arith, r, e));
      lasting = λ e k. x k;
    }

kept_days :
    (b : Bucket) (n : ℕ) (a : StoreAnswers) (s2 : BucketState) {s' : BucketState}
    → retention_days b ≡ some n
    → s2.present ≡ true
    → (a.policy_set ≡ true → s2.public ≡ false)
    → set_expiration b (retention_days b) a s2 ≡ ok s'
    → IsReady b a s'
kept_days b n a s2 r there closed h =
    let (p, q, x) = expiration_set b n a s2 (ap (λ o. set_expiration b o a s2) (sym r) ∙ h) in
    record {
      there = p ∙ there;
      closed = λ k. q ∙ closed k;
      expiring = λ days e. x ∙ (sym r ∙ e);
      lasting = λ e k. absurd (ground (arith, r, e));
    }

initialize_bucket-IsReady :
    (b : Bucket) (a : StoreAnswers) (s : BucketState) {s' : BucketState}
    → initialize_bucket b a s ≡ ok s'
    → IsReady b a s'
initialize_bucket-IsReady b a s h =
    let (s1, s2, e1, e2, e3) = initialize_bucket-parts b a s h in
    let (same, closed) = policy-closed b a s1 e2 in
    let there = same ∙ ensure-present b a s e1 in
    elim (Option-cases (retention_days b)) [
      | inl r ↦ kept_long b a s2 r there closed e3
      | inr (n, r) ↦ kept_days b n a s2 r there closed e3
    ]

is_bucket→eq : (b c : Bucket) → is_bucket b c ≡ true → b ≡ c
is_bucket→eq quarantine quarantine h = refl
is_bucket→eq functions functions h = refl
is_bucket→eq drives drives h = refl
is_bucket→eq logs logs h = refl
is_bucket→eq _ _ h = cc

the_store : Store → Result BucketError Store → Store
the_store store (err e) = store
the_store store (ok s) = s

-- A bucket that is ready stays so while the others are set up.
initialize_each-keeps :
    (answers : Bucket → StoreAnswers) (bs : List Bucket) (store : Store) {store' : Store}
    (c : Bucket)
    → IsReady c (answers c) (store c)
    → initialize_each answers bs store ≡ ok store'
    → IsReady c (answers c) (store' c)
unfolding initialize_each
initialize_each-keeps answers [] store {store'} c ready h =
    let same : store ≡ store' = unfold the_store in ap (the_store store) h in
    subst (λ (st : Store). IsReady c (answers c) (st c)) same ready
initialize_each-keeps answers (b ∷ bs) store c ready h =
    let (s, e, h') = >>=-ok (initialize_bucket b (answers b) (store b)) _ h in
    initialize_each-keeps answers bs (write b s store) c
      (elim (Bool-cases (is_bucket b c)) [
        | inl y ↦
            subst (λ (x : BucketState). IsReady c (answers c) x) (sym (if_true s (store c) y))
              (subst (λ (k : Bucket). IsReady k (answers k) s) (is_bucket→eq b c y)
                (initialize_bucket-IsReady b (answers b) (store b) e))
        | inr n ↦
            subst (λ (x : BucketState). IsReady c (answers c) x) (sym (if_false s (store c) n))
              ready
      ])
      h'

is_bucket_self : (b : Bucket) → is_bucket b b ≡ true
is_bucket_self quarantine = refl
is_bucket_self functions = refl
is_bucket_self drives = refl
is_bucket_self logs = refl

abbrev AllReady : (Bucket → StoreAnswers) → List Bucket → Store → Type 0
AllReady answers bs store = All (λ b. IsReady b (answers b) (store b)) bs

initialize_each-AllReady :
    (answers : Bucket → StoreAnswers) (bs : List Bucket) (store : Store) {store' : Store}
    → initialize_each answers bs store ≡ ok store'
    → AllReady answers bs store'
unfolding initialize_each
initialize_each-AllReady answers [] store h = tt
initialize_each-AllReady answers (b ∷ bs) store h =
    let (s, e, h') = >>=-ok (initialize_bucket b (answers b) (store b)) _ h in
    let stored = sym (if_true s (store b) (is_bucket_self b)) in
    let ready =
      subst (λ (x : BucketState). IsReady b (answers b) x) stored
        (initialize_bucket-IsReady b (answers b) (store b) e) in
    (
      initialize_each-keeps answers bs (write b s store) b ready h',
      initialize_each-AllReady answers bs (write b s store) h',
    )

-- A set-up that succeeds leaves every bucket ready, in whatever state the store was.
pub initialize_buckets-IsReady :
    (answers : Bucket → StoreAnswers) (store : Store) {store' : Store}
    → initialize_buckets answers store ≡ ok store'
    → (b : Bucket) → IsReady b (answers b) (store' b)
unfolding initialize_buckets
initialize_buckets-IsReady answers store h quarantine =
    (initialize_each-AllReady answers buckets store h).1.1.0
initialize_buckets-IsReady answers store h functions =
    (initialize_each-AllReady answers buckets store h).0
initialize_buckets-IsReady answers store h drives =
    (initialize_each-AllReady answers buckets store h).1.1.1.0
initialize_buckets-IsReady answers store h logs =
    (initialize_each-AllReady answers buckets store h).1.0
