-- ===== src/Server/Buckets.antt =====
-- internal/server/filestore: the buckets of the object store and their set-up at the start of the
-- server. What the object store answers is a parameter.
pub mod Ready
use oblak.Prelude.{
  if◌then◌else◌, Result, err, ok, ◌>>=◌, ℕ, Bool, true, false, not, Option, none, some, List, [],
  ◌∷◌,
}
use oblak.Text.{Bytes, codes}

pub data Bucket : Type 0 where
  quarantine functions drives logs : Bucket

abbrev pub name : Bucket → Bytes
name quarantine = codes "oblak-quarantine"
name functions = codes "oblak-functions"
name drives = codes "oblak-drives"
name logs = codes "oblak-logs"

abbrev pub is_public : Bucket → Bool
is_public _ = false

abbrev pub retention_days : Bucket → Option ℕ
retention_days logs = some 30
retention_days _ = none

-- One bucket of the store: whether it is there, whether anybody reads it, and the days after which
-- its objects expire.
pub record BucketState : Type 0 where
  pub present : Bool
  pub public : Bool
  pub expires : Option ℕ

abbrev pub Store : Type 0
Store = Bucket → BucketState

-- Whether each call for a bucket succeeds; to remove a lifecycle that is not there counts as such.
pub record StoreAnswers : Type 0 where
  pub checked : Bool
  pub made : Bool
  pub policy_set : Bool
  pub lifecycle_set : Bool

pub data BucketError : Type 0 where
  check_failed make_failed policy_failed expiration_failed : Bucket → BucketError

ensure : Bucket → StoreAnswers → BucketState → Result BucketError BucketState
ensure b a s =
    if not a.checked
    then err (check_failed b)
    else if s.present
    then ok s
    else if a.made
    then ok (record { present = true; public = false; expires = none })
    else err (make_failed b)

-- A public bucket has to get its policy; where the policy of another cannot be removed, the server
-- goes on.
set_policy : Bucket → Bool → StoreAnswers → BucketState → Result BucketError BucketState
set_policy b true a s =
    if a.policy_set then ok (record s { public = true }) else err (policy_failed b)
set_policy b false a s = ok (if a.policy_set then record s { public = false } else s)

set_expiration : Bucket → Option ℕ → StoreAnswers → BucketState → Result BucketError BucketState
set_expiration b (some days) a s =
    if a.lifecycle_set then ok (record s { expires = some days }) else err (expiration_failed b)
set_expiration b none a s = ok (if a.lifecycle_set then record s { expires = none } else s)

unfoldable pub initialize_bucket :
    Bucket → StoreAnswers → BucketState → Result BucketError BucketState
unfolding ensure set_policy set_expiration
initialize_bucket b a s = do
  s1 ← ensure b a s
  s2 ← set_policy b (is_public b) a s1
  set_expiration b (retention_days b) a s2

abbrev pub is_bucket : Bucket → Bucket → Bool
is_bucket quarantine quarantine = true
is_bucket functions functions = true
is_bucket drives drives = true
is_bucket logs logs = true
is_bucket _ _ = false

abbrev pub write : Bucket → BucketState → Store → Store
write b s store c = if is_bucket b c then s else store c

unfoldable pub initialize_each :
    (Bucket → StoreAnswers) → List Bucket → Store → Result BucketError Store
unfolding initialize_bucket
initialize_each answers [] store = ok store
initialize_each answers (b ∷ bs) store = do
  s ← initialize_bucket b (answers b) (store b)
  initialize_each answers bs (write b s store)

abbrev pub buckets : List Bucket
buckets = functions ∷ logs ∷ quarantine ∷ drives ∷ []

-- InitializeBuckets
unfoldable pub initialize_buckets : (Bucket → StoreAnswers) → Store → Result BucketError Store
unfolding initialize_each
initialize_buckets answers store = initialize_each answers buckets store
