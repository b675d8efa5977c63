-- ===== src/Analyzer/Clam.antt =====
-- internal/analyzer/av/clam.go: what the antivirus client makes of the results of clamd.
use oblak.Prelude.{
  if◌then◌else◌, Result, ok, err, ◌≡◌, refl, Bool, true, false, not, ◌&&◌, ◌||◌, List, [], ◌∷◌,
  arith, ap, ◌∙◌,
}

-- The statuses of go-clamd; `res_other` stands for those that the switches pass over.
pub data ResStatus : Type 0 where
  res_ok res_found res_error res_other : ResStatus

pub data ScanError : Type 0 where
  start_failed engine_failed no_status : ScanError

-- The loop of ScanLocalPath over the channel of results.
unfoldable pub sweep : Bool → List ResStatus → Result ScanError Bool
sweep is_clean [] = if not is_clean then ok false else ok true
sweep is_clean (res_found ∷ results) = sweep false results
sweep is_clean (res_error ∷ results) = err engine_failed
sweep is_clean (_ ∷ results) = sweep is_clean results

-- `results` is what MultiScanFile returns: an error, or the results of the scan.
unfoldable pub scan_local_path : Result ScanError (List ResStatus) → Result ScanError Bool
unfolding sweep
scan_local_path (err e) = err start_failed
scan_local_path (ok results) = sweep true results

pub record StreamScan : Type 0 where
  pub is_clean : Bool
  pub scan_err : Bool
  pub status_found : Bool

-- One round of the loop of ScanStream, once no status has been found.
on_status : ResStatus → StreamScan → StreamScan
on_status res_ok s = record s { is_clean = true; status_found = true }
on_status res_error s = record s { scan_err = true; status_found = true }
on_status res_found s = record s { is_clean = false; status_found = true }
on_status res_other s = s

stream_loop : StreamScan → List ResStatus → StreamScan
stream_loop s [] = s
stream_loop s (r ∷ results) = stream_loop (if s.status_found then s else on_status r s) results

unfoldable pub scan_stream : Result ScanError (List ResStatus) → Result ScanError Bool
unfolding stream_loop on_status
scan_stream (err e) = err start_failed
scan_stream (ok results) =
    let s =
      stream_loop (record { is_clean = false; scan_err = false; status_found = false }) results in
    if not s.status_found
    then err no_status
    else if s.scan_err
    then err engine_failed
    else ok s.is_clean

-- Whether a status is among the results.
abbrev pub is_found : ResStatus → Bool
is_found res_found = true
is_found _ = false

abbrev pub is_error : ResStatus → Bool
is_error res_error = true
is_error _ = false

abbrev pub any {ℓ} : {A : Type ℓ} → (A → Bool) → List A → Bool
any p [] = false
any p (x ∷ xs) = p x || any p xs

sweep_lem :
    (is_clean : Bool) (results : List ResStatus)
    → sweep is_clean results ≡ (
        if any is_error results
        then err engine_failed
        else ok (is_clean && not (any is_found results)))
unfolding sweep
sweep_lem true [] = refl
sweep_lem false [] = refl
sweep_lem b (res_found ∷ results) = ground (arith, sweep_lem false results)
sweep_lem b (res_error ∷ results) = refl
sweep_lem b (res_ok ∷ results) = sweep_lem b results
sweep_lem b (res_other ∷ results) = sweep_lem b results

-- The scan of a directory that starts reports an error exactly when some result is an error, and
-- otherwise reports the directory clean exactly when no result is a match, whatever their order.
pub scan_local_path_lem :
    (results : List ResStatus)
    → scan_local_path (ok results)
      ≡ (if any is_error results then err engine_failed else ok (not (any is_found results)))
unfolding scan_local_path
scan_local_path_lem results = sweep_lem true results

-- What the first definite status of a stream of results decides.
abbrev pub first_status : List ResStatus → Result ScanError Bool
first_status [] = err no_status
first_status (res_ok ∷ _) = ok true
first_status (res_error ∷ _) = err engine_failed
first_status (res_found ∷ _) = ok false
first_status (res_other ∷ results) = first_status results

stream_loop_settled :
    (s : StreamScan) (results : List ResStatus) → s.status_found ≡ true → stream_loop s results ≡ s
unfolding stream_loop
stream_loop_settled s [] h = refl
stream_loop_settled s (r ∷ results) h =
    let stays : (if s.status_found then s else on_status r s) ≡ s = ground arith in
    ap (λ t. stream_loop t results) stays ∙ stream_loop_settled s results h

-- The scan of a stream that starts is decided by the first status that is a clean file, a match or
-- an error; what follows is passed over, and with no such status the scan is an error.
pub scan_stream_lem : (results : List ResStatus) → scan_stream (ok results) ≡ first_status results
unfolding scan_stream
scan_stream_lem [] = refl
scan_stream_lem (res_ok ∷ results) =
    rw
      (stream_loop_settled (record { is_clean = true; scan_err = false; status_found = true })
        results refl)
      refl
scan_stream_lem (res_error ∷ results) =
    rw
      (stream_loop_settled (record { is_clean = false; scan_err = true; status_found = true })
        results refl)
      refl
scan_stream_lem (res_found ∷ results) =
    rw
      (stream_loop_settled (record { is_clean = false; scan_err = false; status_found = true })
        results refl)
      refl
scan_stream_lem (res_other ∷ results) = scan_stream_lem results
