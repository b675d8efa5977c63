-- ===== src/Cli/Poll.antt =====
-- cmd/cli/util/pollstatus.go: the loop that shows the status of a function until it is final. The
-- colours, the spinner and the elapsed time are left out.
use oblak.Prelude.{
  ap, ◌∙◌, sym, if◌then◌else◌, All, ◌≡◌, refl, Bool, true, false, not, ◌&&◌, ◌||◌, List, [], ◌∷◌,
  ◌++◌,
}
use mathlib.Core.List.{Memᴰ}
use mathlib.Core.List.Memᴰ
use mathlib.Core.Path.{subst}
use oblak.Text.{Bytes, codes, bytes_eq}
use oblak.Function
use oblak.Function.{Status, Function}

-- The answer to the request of one tick: none, an HTTP status of 300 or more, a body that is not JSON,
-- or the status that the body holds.
pub data Response : Type 0 where
  request_error : Response
  http_error : Response
  bad_body : Response
  answered : Bytes → Response

pub data Print : Type 0 where
  request_failed unexpected_response parse_failed : Print
  status_line : Bytes → Print
  changed : Bytes → Bytes → Print
  final_status : Bytes → Bool → Print

-- `exited` is os.Exit(1), and `polling` that the responses are used up.
pub data Outcome : Type 0 where
  polling exited : Outcome
  returned : Bytes → Outcome

abbrev pub is_final : Bytes → Bool
is_final status =
    bytes_eq status (codes "FAILED")
    || bytes_eq status (codes "READY")
    || bytes_eq status (codes "DETECTED")

-- The mark of the last line: whether the status is READY.
abbrev is_good : Bytes → Bool
is_good status = not (bytes_eq status (codes "FAILED") || bytes_eq status (codes "DETECTED"))

is_empty : Bytes → Bool
is_empty [] = true
is_empty (c ∷ s) = false

abbrev change_lines : Bytes → Bytes → List Print
change_lines last status =
    if not (bytes_eq status last) && not (is_empty last) then changed last status ∷ [] else []

abbrev in_front : List Print → List Print × Outcome → List Print × Outcome
in_front front r = (front ++ r.0, r.1)

-- One tick behind a successful request; `rest` are the ticks behind it.
unfoldable pub show_status : Bytes → Bytes → List Print × Outcome → List Print × Outcome
unfolding is_empty
show_status last status rest =
    in_front (status_line status ∷ change_lines last status) (
      if is_final status
      then (final_status status (is_good status) ∷ [], returned status)
      else rest)

-- PollFunctionStatus: the loop over the ticks, from the last status.
unfoldable pub poll_function_status : Bytes → List Response → List Print × Outcome
unfolding show_status
poll_function_status last [] = ([], polling)
poll_function_status last (request_error ∷ ticks) = (request_failed ∷ [], exited)
poll_function_status last (http_error ∷ ticks) = (unexpected_response ∷ [], exited)
poll_function_status last (bad_body ∷ ticks) = (parse_failed ∷ [], exited)
poll_function_status last (answered status ∷ ticks) =
    show_status last status (poll_function_status status ticks)

-- The text of a status that the server answers.
abbrev pub status_text : Function.Status → Bytes
status_text Function.quarantined = codes "QUARANTINED"
status_text Function.extracted = codes "EXTRACTED"
status_text Function.scanning = codes "SCANNING"
status_text Function.detected = codes "DETECTED"
status_text Function.verified = codes "VERIFIED"
status_text Function.preparing_environment = codes "PREPARING_ENVIRONMENT"
status_text Function.ready = codes "READY"
status_text Function.failed = codes "FAILED"

-- The server's statuses: what the ticks of a function answer.
abbrev pub ticks_of : List Function.Status → List Response
ticks_of [] = []
ticks_of (s ∷ ss) = answered (status_text s) ∷ ticks_of ss

-- A status that the worker for uploads, the analyzer or the builder leaves as it is.
abbrev pub is_settled : Function.Status → Bool
is_settled Function.ready = true
is_settled Function.failed = true
is_settled Function.detected = true
is_settled _ = false

abbrev pub is_ready : Function.Status → Bool
is_ready Function.ready = true
is_ready _ = false

final_iff : (s : Function.Status) → is_final (status_text s) ≡ is_settled s
unfolding bytes_eq
final_iff Function.quarantined = refl
final_iff Function.extracted = refl
final_iff Function.scanning = refl
final_iff Function.detected = refl
final_iff Function.verified = refl
final_iff Function.preparing_environment = refl
final_iff Function.ready = refl
final_iff Function.failed = refl

-- A response that ends the loop, with the line that is printed last and the end: a request that fails,
-- or a status that stays.
pub data IsEnd : Response → Print → Outcome → Type 0 where
  no_answer : IsEnd request_error request_failed exited
  bad_status : IsEnd http_error unexpected_response exited
  not_json : IsEnd bad_body parse_failed exited
  stays :
      (s : Function.Status)
      → is_settled s ≡ true
      → IsEnd
          (answered (status_text s))
          (final_status (status_text s) (is_ready s))
          (returned (status_text s))

-- A run of the loop that ends so.
abbrev pub EndsWith : Print → Outcome → List Print × Outcome → Type 0
EndsWith p o r = (r.1 ≡ o) × Memᴰ p r.0

final_shown :
    (last status : Bytes) (good : Bool) (rest : List Print × Outcome)
    → is_final status ≡ true
    → is_good status ≡ good
    → EndsWith (final_status status good) (returned status) (show_status last status rest)
unfolding show_status
final_shown last status good rest h g =
    rw (h, g) (refl, Memᴰ.tail (Memᴰ.append_right (change_lines last status) (Memᴰ.head refl)))

good_iff : (s : Function.Status) → is_settled s ≡ true → is_good (status_text s) ≡ is_ready s
unfolding bytes_eq
good_iff Function.quarantined h = cc
good_iff Function.extracted h = cc
good_iff Function.scanning h = cc
good_iff Function.detected h = refl
good_iff Function.verified h = cc
good_iff Function.preparing_environment h = cc
good_iff Function.ready h = refl
good_iff Function.failed h = refl

unsettled_shown :
    (last status : Bytes) (rest : List Print × Outcome)
    → is_final status ≡ false
    → show_status last status rest ≡ in_front (status_line status ∷ change_lines last status) rest
unfolding show_status
unsettled_shown last status rest h = rw h refl

ends_at_once :
    (last : Bytes) {r : Response} {p : Print} {o : Outcome} (behind : List Response)
    → IsEnd r p o
    → EndsWith p o (poll_function_status last (r ∷ behind))
unfolding poll_function_status
ends_at_once last behind no_answer = (refl, Memᴰ.head refl)
ends_at_once last behind bad_status = (refl, Memᴰ.head refl)
ends_at_once last behind not_json = (refl, Memᴰ.head refl)
ends_at_once last behind (stays s h) =
    final_shown last (status_text s) (is_ready s) (poll_function_status (status_text s) behind)
      (final_iff s ∙ h) (good_iff s h)

-- The loop goes on over the statuses of a function as long as none of them is READY, FAILED or
-- DETECTED, and ends at the first response behind them that is one of these or an error, whatever
-- follows: with the status, and a good mark exactly for READY, or with exit code 1 and the line for the
-- error.
pub poll_ends :
    (last : Bytes) (ss : List Function.Status) {r : Response} {p : Print} {o : Outcome}
    (behind : List Response)
    → All (λ s. is_settled s ≡ false) ss
    → IsEnd r p o
    → ((poll_function_status last (ticks_of ss)).1 ≡ polling)
      × EndsWith p o (poll_function_status last (ticks_of ss ++ r ∷ behind))
unfolding poll_function_status
poll_ends last [] behind h e = (refl, ends_at_once last behind e)
poll_ends last (s ∷ ss) {r} {p} {o} behind h e =
    let text = status_text s in
    let front = status_line text ∷ change_lines last text in
    let (on, ended) = poll_ends text ss behind h.1 e in
    let goes =
      λ (rest : List Print × Outcome). unsettled_shown last text rest (final_iff s ∙ h.0) in
    (
      ap (λ x. x.1) (goes (poll_function_status text (ticks_of ss))) ∙ on,
      subst (EndsWith p o) (sym (goes (poll_function_status text (ticks_of ss ++ r ∷ behind))))
          (ended.0, Memᴰ.append_right front ended.1),
    )
