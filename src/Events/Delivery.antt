-- ===== src/Events/Delivery.antt =====
-- Who gets an event: `Emit` of common/event-system.hpp against the number of subscriptions.
use tec.Base.{
  ℕ, zero, suc, ◌+◌, ◌≡◌, refl, ap, sym, ◌∙◌, Bool, true, false, ◌&&◌, not, none, some, List, [],
  ◌∷◌, ◌++◌, append_assoc, append-nil, ◌==◌, if◌then◌else◌, arith, Bool-cases, Option-cases, inl,
  inr, ◌⊎◌, replicate,
}
use tec.Base.Maps.{Map, find, insert, find-insert}
use tec.Events.EventSystem.{
  Event, EventSystem, member, remove, subscribers_of, subscribe, unsubscribe, queue_event, queue_to,
  queue_found, emit,
}

-- How often a queue stands in a list of subscribers.
unfoldable pub count : ℕ → List ℕ → ℕ
count q [] = 0
count q (p ∷ ps) = if p == q then suc (count q ps) else count q ps

-- How often a queue is subscribed to an entity; 0 stands for all entities.
abbrev pub subscriptions : {A : Type 0} → ℕ → ℕ → EventSystem A → ℕ
subscriptions q entity_id w = count q (subscribers_of entity_id w.subscribers)

count-append : (q : ℕ) (ps rs : List ℕ) → count q (ps ++ rs) ≡ count q ps + count q rs
unfolding count
count-append q [] rs = omega arith
count-append q (p ∷ ps) rs = ground (arith, count-append q ps rs)

count-remove : (q s : ℕ) (ps : List ℕ) → count q (remove s ps) ≡ (if q == s then 0 else count q ps)
unfolding count remove
count-remove q s [] = ground arith
count-remove q s (p ∷ ps) = ground (arith, count-remove q s ps)

member-count : (q : ℕ) (ps : List ℕ) → member q ps ≡ not (count q ps == 0)
unfolding member count
member-count q [] = refl
member-count q (p ∷ ps) = ground (arith, member-count q ps)

replicate-add :
    {A : Type 0} (m n : ℕ) (a : A) → replicate (m + n) a ≡ replicate m a ++ replicate n a
replicate-add zero n a = ap (λ k. replicate k a) (omega arith)
replicate-add (suc m) n a =
    let next : suc m + n ≡ suc (m + n) = omega arith in
    ap (λ k. replicate k a) next ∙ ap (λ t. a ∷ t) (replicate-add m n a)

module _ {A : Type 0} where
  queue_to-queues :
      (q : ℕ) (ps : List ℕ) (e : Event A) (w : EventSystem A)
      → (queue_to ps e w).queues q ≡ w.queues q ++ replicate (count q ps) e
  unfolding queue_to count queue_event
  queue_to-queues q [] e w = sym (append-nil (w.queues q))
  queue_to-queues q (p ∷ ps) e w = elim (Bool-cases (q == p)) [
    | inl same ↦
        let flipped : (p == q) ≡ true = ground (arith, same) in
        rw flipped (
          queue_to-queues q ps e (queue_event p e w)
          ∙ rw same (append_assoc (w.queues q) (e ∷ []) (replicate (count q ps) e)))
    | inr other ↦
        let flipped : (p == q) ≡ false = ground (arith, other) in
        rw flipped (queue_to-queues q ps e (queue_event p e w) ∙ rw other refl)
  ]

  queue_to-subscribers :
      (ps : List ℕ) (e : Event A) (w : EventSystem A)
      → (queue_to ps e w).subscribers ≡ w.subscribers
  unfolding queue_to queue_event
  queue_to-subscribers [] e w = refl
  queue_to-subscribers (p ∷ ps) e w = queue_to-subscribers ps e (queue_event p e w)

  queue_found-queues :
      (q entity_id : ℕ) (e : Event A) (w : EventSystem A)
      → ((queue_found entity_id e w).queues q
          ≡ w.queues q ++ replicate (subscriptions q entity_id w) e)
        × ((queue_found entity_id e w).subscribers ≡ w.subscribers)
  unfolding count
  queue_found-queues q entity_id e w = elim (Option-cases (find entity_id w.subscribers)) [
    | inl none_there ↦
        rw (queue_found, subscribers_of, none_there) (sym (append-nil (w.queues q)), refl)
    | inr (ps, there) ↦
        rw (queue_found, subscribers_of, there)
          (queue_to-queues q ps e w, queue_to-subscribers ps e w)
  ]

  -- `Emit` puts the event behind what a queue holds, once for each subscription of the queue to the
  -- entity and once for each of its subscriptions to all entities, where entity 0 stands for no other
  -- than these. It changes no subscription.
  pub emit-queues :
      (q entity_id : ℕ) (data_of : A) (w : EventSystem A)
      → ((emit entity_id data_of w).queues q
          ≡ w.queues q
            ++ replicate
                ((if entity_id == 0 then 0 else subscriptions q entity_id w) + subscriptions q 0 w)
                (record { entity_id = entity_id; data_of = data_of }))
        × ((emit entity_id data_of w).subscribers ≡ w.subscribers)
  unfolding emit
  emit-queues q entity_id data_of w =
      let e : Event A = record { entity_id = entity_id; data_of = data_of } in
      elim (Bool-cases (entity_id == 0)) [
        | inl zero_id ↦ rw zero_id (
            let (first, kept) = queue_found-queues q 0 e w in
            (first ∙ ap (λ n. w.queues q ++ replicate n e) (omega arith), kept))
        | inr some_id ↦
            let (first, kept) = queue_found-queues q entity_id e w in
            let (second, kept') = queue_found-queues q 0 e (queue_found entity_id e w) in
            rw some_id (
              second
                  ∙ ap
                      (λ m.
                        (queue_found entity_id e w).queues q
                        ++ replicate (count q (subscribers_of 0 m)) e)
                      kept
                  ∙ ap (λ t. t ++ replicate (subscriptions q 0 w) e) first
                  ∙ append_assoc (w.queues q) (replicate (subscriptions q entity_id w) e)
                      (replicate (subscriptions q 0 w) e)
                  ∙ ap (λ t. w.queues q ++ t)
                      (sym (replicate-add (subscriptions q entity_id w) (subscriptions q 0 w) e)),
              kept' ∙ kept,
            )
      ]

subscribers_of-insert :
    (j k : ℕ) (ps : List ℕ) (m : Map (List ℕ))
    → subscribers_of j (insert k ps m) ≡ (if k == j then ps else subscribers_of j m)
subscribers_of-insert j k ps m = elim (Bool-cases (k == j)) [
  | inl same ↦ rw (subscribers_of, find-insert j k ps m, same) refl
  | inr other ↦ rw (subscribers_of, find-insert j k ps m, other) refl
]

count-insert :
    (q j k : ℕ) (ps : List ℕ) (m : Map (List ℕ))
    → count q (subscribers_of j (insert k ps m))
      ≡ (if k == j then count q ps else count q (subscribers_of j m))
count-insert q j k ps m = ap (count q) (subscribers_of-insert j k ps m) ∙ pull (k == j)
  where
    pull :
        (b : Bool)
        → count q (if b then ps else subscribers_of j m)
          ≡ (if b then count q ps else count q (subscribers_of j m))
    pull true = refl
    pull false = refl

subscribers_found :
    (j k : ℕ) (ps : List ℕ) (m : Map (List ℕ))
    → find k m ≡ some ps
    → (k == j) ≡ true
    → subscribers_of j m ≡ ps
subscribers_found j k ps m h e =
    let same : j ≡ k = ground (arith, e) in rw (same, subscribers_of, h) refl

subscribers_missing :
    (j k : ℕ) (m : Map (List ℕ)) → find k m ≡ none → (k == j) ≡ true → subscribers_of j m ≡ []
subscribers_missing j k m h e =
    let same : j ≡ k = ground (arith, e) in rw (same, subscribers_of, h) refl

not_again :
    (q s : ℕ) (ps : List ℕ)
    → member s ps ≡ true
    → count q ps ≡ (if q == s && count q ps == 0 then 1 else count q ps)
not_again q s ps is_in = elim (Bool-cases (q == s)) [
  | inl same ↦
      let e : q ≡ s = ground (arith, same) in
      rw (same, e) (ground (arith, member-count s ps, is_in))
  | inr other ↦ rw other refl
]

once_more :
    (q s : ℕ) (ps : List ℕ)
    → member s ps ≡ false
    → count q ps + count q (s ∷ []) ≡ (if q == s && count q ps == 0 then 1 else count q ps)
unfolding count
once_more q s ps is_out = elim (Bool-cases (q == s)) [
  | inl same ↦
      let e : q ≡ s = ground (arith, same) in
      rw (same, e) (ground (arith, member-count s ps, is_out))
  | inr other ↦ rw other (ground (arith, other))
]

module _ {A : Type 0} where
  -- Once `Subscribe` for an entity was called, the queue is subscribed to it once if it was not
  -- subscribed to it before, and as often as before otherwise; all other subscriptions stay.
  pub subscribe-subscriptions :
      (q s entity_id other : ℕ) (w : EventSystem A)
      → subscriptions q other (subscribe entity_id s w) ≡ (
          if entity_id == other && q == s && subscriptions q other w == 0
          then 1
          else subscriptions q other w)
  unfolding subscribe
  subscribe-subscriptions q s entity_id other w =
      by_entry (Bool-cases (entity_id == other)) (Option-cases (find entity_id w.subscribers))
    where
      by_entry :
          ((entity_id == other) ≡ true) ⊎ ((entity_id == other) ≡ false)
          → (find entity_id w.subscribers ≡ none)
            ⊎ ((ps : List ℕ) × (find entity_id w.subscribers ≡ some ps))
          → subscriptions q other (subscribe entity_id s w) ≡ (
              if entity_id == other && q == s && subscriptions q other w == 0
              then 1
              else subscriptions q other w)
      by_entry (inl same) (inl none_there) =
          let before : subscriptions q other w ≡ 0 =
            ap (count q) (subscribers_missing other entity_id w.subscribers none_there same)
            ∙ (unfold count in refl) in
          rw (subscribe, none_there)
            (count-insert q other entity_id (s ∷ []) w.subscribers
              ∙ rw (same, before) (unfold count in ground arith))
      by_entry (inr apart) (inl none_there) =
          rw (subscribe, none_there)
            (count-insert q other entity_id (s ∷ []) w.subscribers ∙ rw apart refl)
      by_entry (inl same) (inr (ps, there)) =
          let before : subscriptions q other w ≡ count q ps =
            ap (count q) (subscribers_found other entity_id ps w.subscribers there same) in
          elim (Bool-cases (member s ps)) [
            | inl is_in ↦
                rw (subscribe, there, is_in) (before ∙ rw (same, before) (not_again q s ps is_in))
            | inr is_out ↦
                rw (subscribe, there, is_out)
                  (count-insert q other entity_id (ps ++ (s ∷ [])) w.subscribers
                    ∙ rw (same, before, count-append q ps (s ∷ [])) (once_more q s ps is_out))
          ]
      by_entry (inr apart) (inr (ps, there)) = elim (Bool-cases (member s ps)) [
        | inl is_in ↦ rw (subscribe, there, is_in) (rw apart refl)
        | inr is_out ↦
            rw (subscribe, there, is_out)
              (count-insert q other entity_id (ps ++ (s ∷ [])) w.subscribers ∙ rw apart refl)
      ]

  -- Once `Unsubscribe` was called, the queue is not subscribed to the entity, however often it was;
  -- all other subscriptions stay.
  pub unsubscribe-subscriptions :
      (q s entity_id other : ℕ) (w : EventSystem A)
      → subscriptions q other (unsubscribe entity_id s w)
        ≡ (if entity_id == other && q == s then 0 else subscriptions q other w)
  unfolding unsubscribe count
  unsubscribe-subscriptions q s entity_id other w =
      by_entry (Bool-cases (entity_id == other)) (Option-cases (find entity_id w.subscribers))
    where
      by_entry :
          ((entity_id == other) ≡ true) ⊎ ((entity_id == other) ≡ false)
          → (find entity_id w.subscribers ≡ none)
            ⊎ ((ps : List ℕ) × (find entity_id w.subscribers ≡ some ps))
          → subscriptions q other (unsubscribe entity_id s w)
            ≡ (if entity_id == other && q == s then 0 else subscriptions q other w)
      by_entry (inl same) (inl none_there) =
          let before : subscriptions q other w ≡ 0 =
            ap (count q) (subscribers_missing other entity_id w.subscribers none_there same) in
          rw (unsubscribe, none_there) (before ∙ rw (same, before) (ground arith))
      by_entry (inr apart) (inl none_there) = rw (unsubscribe, none_there) (rw apart refl)
      by_entry (inl same) (inr (ps, there)) =
          let before : subscriptions q other w ≡ count q ps =
            ap (count q) (subscribers_found other entity_id ps w.subscribers there same) in
          rw (unsubscribe, there)
            (count-insert q other entity_id (remove s ps) w.subscribers
              ∙ rw (same, before) (count-remove q s ps))
      by_entry (inr apart) (inr (ps, there)) =
          rw (unsubscribe, there)
            (count-insert q other entity_id (remove s ps) w.subscribers ∙ rw apart refl)
