-- ===== src/Server/Bus.antt =====
-- internal/server/events/bus.go: one buffered channel for each subscriber, as the list of the events
-- that wait in it.
use native.Mathlib.Decide.{dec_lt}
use oblak.Prelude.{
  ltb, if◌then◌else◌, if_false, if_true, lt→ltb, length, take, length-append, All, ℕ, zero, suc,
  ◌-◌, ◌≤◌, ◌<◌, ◌≡◌, refl, sym, ap, ◌∙◌, false, List, [], ◌∷◌, ◌++◌, append-nil, append_assoc,
  arith,
}

abbrev pub buffer_size_per_subscription : ℕ
buffer_size_per_subscription = 100

module _ {ℓ} {E : Type ℓ} where
  -- The select on one channel: the event is dropped where the buffer is full.
  unfoldable pub offer : E → List E → List E
  offer event ch = if ltb (length ch) buffer_size_per_subscription then ch ++ event ∷ [] else ch

  -- Publish
  unfoldable pub publish : E → List (List E) → List (List E)
  unfolding offer
  publish event [] = []
  publish event (ch ∷ subscribers) = offer event ch ∷ publish event subscribers

  -- Subscribe
  abbrev pub subscribe : List (List E) → List (List E)
  subscribe subscribers = subscribers ++ [] ∷ []

  -- Events that are published one after the other.
  unfoldable pub publish_all : List E → List (List E) → List (List E)
  publish_all [] subscribers = subscribers
  publish_all (event ∷ events) subscribers = publish_all events (publish event subscribers)

  -- The events that a channel takes in while nobody reads it.
  abbrev pub accepted : List E → List E → List E
  accepted events ch = ch ++ take (buffer_size_per_subscription - length ch) events

  abbrev pub each : (List E → List E) → List (List E) → List (List E)
  each f [] = []
  each f (ch ∷ subscribers) = f ch ∷ each f subscribers

  take_none : (n : ℕ) → take {A = E} n [] ≡ []
  take_none zero = refl
  take_none (suc n) = refl

  accepted-nil : (ch : List E) → accepted [] ch ≡ ch
  accepted-nil ch =
      ap (λ k. ch ++ k) (take_none (buffer_size_per_subscription - length ch)) ∙ append-nil ch

  offer_space :
      (event : E) (ch : List E)
      → length ch < buffer_size_per_subscription
      → offer event ch ≡ ch ++ event ∷ []
  unfolding offer
  offer_space event ch h = if_true _ _ (lt→ltb _ _ h)

  offer_full :
      (event : E) (ch : List E) → length ch ≡ buffer_size_per_subscription → offer event ch ≡ ch
  unfolding offer
  offer_full event ch h =
      let full : ltb (length ch) buffer_size_per_subscription ≡ false = ground arith in
      if_false _ _ full

  accepted-offer :
      (event : E) (events ch : List E)
      → length ch ≤ buffer_size_per_subscription
      → accepted events (offer event ch) ≡ accepted (event ∷ events) ch
  accepted-offer event events ch h = elim (dec_lt (length ch) buffer_size_per_subscription) [
    | yes space ↦
        let n = buffer_size_per_subscription - suc (length ch) in
        let room : buffer_size_per_subscription - length (ch ++ event ∷ []) ≡ n =
          omega (arith, length-append ch (event ∷ [])) in
        let left : suc n ≡ buffer_size_per_subscription - length ch = omega arith in
        ap (accepted events) (offer_space event ch space)
        ∙ ap (λ k. (ch ++ event ∷ []) ++ take k events) room
        ∙ append_assoc ch (event ∷ []) (take n events)
        ∙ ap (λ k. ch ++ take k (event ∷ events)) left
    | no full ↦
        let none_left : 0 ≡ buffer_size_per_subscription - length ch = omega arith in
        ap (accepted events) (offer_full event ch (omega arith))
        ∙ ap (λ k. ch ++ take k events) (sym none_left)
        ∙ ap (λ k. ch ++ take k (event ∷ events)) none_left
  ]

  offer-bounded :
      (event : E) (ch : List E)
      → length ch ≤ buffer_size_per_subscription
      → length (offer event ch) ≤ buffer_size_per_subscription
  unfolding offer
  offer-bounded event ch h = ground (arith, length-append ch (event ∷ []))

  abbrev pub IsBounded : List E → Type 0
  IsBounded ch = length ch ≤ buffer_size_per_subscription

  publish-IsBounded :
      (event : E) (subscribers : List (List E))
      → All IsBounded subscribers
      → All IsBounded (publish event subscribers)
  unfolding publish
  publish-IsBounded event [] h = tt
  publish-IsBounded event (ch ∷ subscribers) h =
      (offer-bounded event ch h.0, publish-IsBounded event subscribers h.1)

  each-nil : (subscribers : List (List E)) → each (accepted []) subscribers ≡ subscribers
  each-nil [] = refl
  each-nil (ch ∷ subscribers) =
      ap (λ k. k ∷ each (accepted []) subscribers) (accepted-nil ch)
      ∙ ap (◌∷◌ ch) (each-nil subscribers)

  each-publish :
      (event : E) (events : List E) (subscribers : List (List E))
      → All IsBounded subscribers
      → each (accepted events) (publish event subscribers)
        ≡ each (accepted (event ∷ events)) subscribers
  unfolding publish
  each-publish event events [] h = refl
  each-publish event events (ch ∷ subscribers) h =
      ap (λ k. k ∷ each (accepted events) (publish event subscribers))
        (accepted-offer event events ch h.0)
      ∙ ap (◌∷◌ (accepted (event ∷ events) ch)) (each-publish event events subscribers h.1)

  -- Where no channel holds more than 100 events, events that are published while nobody reads are
  -- appended in their order to every channel until it holds 100, and the rest is dropped; no channel
  -- ever holds more.
  pub publish_all_lem :
      (events : List E) (subscribers : List (List E))
      → All IsBounded subscribers
      → (publish_all events subscribers ≡ each (accepted events) subscribers)
        × All IsBounded (publish_all events subscribers)
  unfolding publish_all
  publish_all_lem [] subscribers h = (sym (each-nil subscribers), h)
  publish_all_lem (event ∷ events) subscribers h =
      let (e, b) =
        publish_all_lem events (publish event subscribers)
          (publish-IsBounded event subscribers h) in
      (e ∙ each-publish event events subscribers h, b)
