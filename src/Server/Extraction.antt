-- ===== src/Server/Extraction.antt =====
-- internal/server/extractor/service.go and internal/server/analyzerpublisher: the worker that hands the
-- events behind the check of the uploads to the analyzer.
use mathlib.Core.List.{map}
use oblak.Prelude.{
  take, length, ◌-◌, ◌≤◌, ◌++◌, if◌then◌else◌, if_true, All, ◌≡◌, refl, ap, ◌∙◌, Bool, true, false,
  List, [], ◌∷◌,
}
use oblak.Function.{Functions}
use oblak.Analyzer.Listener.{FunctionMessage}
use oblak.Server.Quarantine.{UploadEvent, Visit, quarantine_worker, worker-up, events_of}
use oblak.Server.Bus.{publish_all, publish_all_lem, accepted, buffer_size_per_subscription}
use oblak.Server.Upload.{quarantine_bucket}

-- CreateMessage
abbrev pub create_message : UploadEvent → FunctionMessage
create_message e = record { function_id = e.function_id; bucket = quarantine_bucket; path = e.path }

-- StartExtractionWorker: the messages that reach the analyzer, and whether the process ended, which it
-- does at the first that cannot be sent. `sent` is the result of StartPublisher.
unfoldable pub extraction_worker :
    (UploadEvent → Bool) → List UploadEvent → List FunctionMessage × Bool
extraction_worker sent [] = ([], false)
extraction_worker sent (e ∷ events) =
    let rest = extraction_worker sent events in
    if sent e then (create_message e ∷ rest.0, rest.1) else ([], true)

extraction_worker-sent :
    (sent : UploadEvent → Bool) (es : List UploadEvent)
    → ((e : UploadEvent) → sent e ≡ true)
    → extraction_worker sent es ≡ (map create_message es, false)
unfolding extraction_worker
extraction_worker-sent sent [] s = refl
extraction_worker-sent sent (e ∷ es) s =
    if_true _ _ (s e) ∙ ap (λ r. (create_message e ∷ r.0, r.1)) (extraction_worker-sent sent es s)

passed_events :
    (vs : List Visit) (t : Functions)
    → All (λ v. v.up ≡ true) vs
    → (quarantine_worker vs t).1 ≡ events_of vs
unfolding quarantine_worker
passed_events [] t h = refl
passed_events (v ∷ vs) t h =
    ap (λ r. r.1) (worker-up v vs t h.0) ∙ ap (◌∷◌ v.event) (passed_events vs _ h.1)

abbrev first_channel : List (List UploadEvent) → List UploadEvent
first_channel [] = []
first_channel (ch ∷ subscribers) = ch

-- The extraction worker over what the bus hands to it: it reads its channel, which held `ch`, behind
-- the events that the quarantine worker has published.
abbrev pub extracted_messages :
    (UploadEvent → Bool) → List UploadEvent → List Visit → Functions → List FunctionMessage × Bool
extracted_messages sent ch vs t =
    extraction_worker sent (first_channel (publish_all (quarantine_worker vs t).1 (ch ∷ [])))

-- While the database executes the statements and messages can be sent, the uploads that are visited
-- while the extraction worker does not read reach the analyzer behind those that wait in its channel, in
-- order and once, each with its identifier and its path in the quarantine bucket, whether or not its
-- archive was accepted, and the workers go on: exactly the first ones, until 100 events wait. The
-- messages of all others are never sent.
pub extraction-quarantine_worker :
    (sent : UploadEvent → Bool) (ch : List UploadEvent) (vs : List Visit) (t : Functions)
    → length ch ≤ buffer_size_per_subscription
    → All (λ v. v.up ≡ true) vs
    → ((e : UploadEvent) → sent e ≡ true)
    → extracted_messages sent ch vs t ≡ (
      map create_message (ch ++ take (buffer_size_per_subscription - length ch) (events_of vs)),
      false,
    )
extraction-quarantine_worker sent ch vs t room h s =
    ap (λ es. extraction_worker sent (first_channel es))
      ((publish_all_lem (quarantine_worker vs t).1 (ch ∷ []) (room, tt)).0)
    ∙ ap (λ es. extraction_worker sent (accepted es ch)) (passed_events vs t h)
    ∙ extraction_worker-sent sent (accepted (events_of vs) ch) s
