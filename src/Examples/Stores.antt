-- ===== src/Examples/Stores.antt =====
-- The set-up of the buckets from an empty store.
use oblak.Prelude.{ok, ◌≡◌, refl, true, false, none, some}
use oblak.Server.Buckets.{
  Bucket, quarantine, functions, drives, logs, Store, StoreAnswers, write, initialize_buckets,
}

abbrev all_succeed : Bucket → StoreAnswers
all_succeed _ = record { checked = true; made = true; policy_set = true; lifecycle_set = true }

abbrev nothing_there : Store
nothing_there _ = record { present = false; public = false; expires = none }

abbrev set_up : Store
set_up quarantine = record { present = true; public = false; expires = none }
set_up functions = record { present = true; public = false; expires = none }
set_up drives = record { present = true; public = false; expires = none }
set_up logs = record { present = true; public = false; expires = some 30 }

abbrev written : Store
written = write drives (set_up drives) (
    write quarantine (set_up quarantine)
      (write logs (set_up logs) (write functions (set_up functions) nothing_there)))

set_up_test : initialize_buckets all_succeed nothing_there ≡ ok written
unfolding initialize_buckets
set_up_test = refl
