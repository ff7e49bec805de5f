-- ===== src/Events/EventSystem.antt =====
-- common/event-system.hpp, `EventSystem<T>`. An `EventQueue<T>*` is a number, the address of the queue;
-- of a queue it is held what `write_event_queue` points at, by address.
use tec.Base.{ℕ, Bool, false, none, some, List, [], ◌∷◌, ◌++◌, ◌||◌, ◌==◌, if◌then◌else◌}
use tec.Base.Maps.{Map, find, insert}

pub record Event (A : Type 0) : Type 0 where
  pub entity_id : ℕ
  pub data_of : A

pub record EventSystem (A : Type 0) : Type 0 where
  pub subscribers : Map (List ℕ)
  pub queues : ℕ → List (Event A)

unfoldable pub member : ℕ → List ℕ → Bool
member q [] = false
member q (p ∷ ps) = p == q || member q ps

-- `list::remove`: every entry with that value goes.
unfoldable pub remove : ℕ → List ℕ → List ℕ
remove q [] = []
remove q (p ∷ ps) = if p == q then remove q ps else p ∷ remove q ps

-- `operator[]` of the map, which adds an empty list where there is none.
abbrev pub subscribers_of : ℕ → Map (List ℕ) → List ℕ
subscribers_of entity_id m = elim (find entity_id m) [ none ↦ [] | some ps ↦ ps ]

module _ {A : Type 0} where
  -- `Subscribe(entity_id, subscriber)`
  unfoldable pub subscribe : ℕ → ℕ → EventSystem A → EventSystem A
  subscribe entity_id subscriber w = elim (find entity_id w.subscribers) [
    | none ↦ record w { subscribers = insert entity_id (subscriber ∷ []) w.subscribers }
    | some ps ↦
        if member subscriber ps
        then w
        else record w { subscribers = insert entity_id (ps ++ (subscriber ∷ [])) w.subscribers }
  ]

  -- `Subscribe(subscriber)`: no check whether it is there.
  unfoldable pub subscribe_all : ℕ → EventSystem A → EventSystem A
  subscribe_all subscriber w = record w {
    subscribers = insert 0 (subscribers_of 0 w.subscribers ++ (subscriber ∷ [])) w.subscribers;
  }

  -- `Unsubscribe(entity_id, subscriber)`
  unfoldable pub unsubscribe : ℕ → ℕ → EventSystem A → EventSystem A
  unsubscribe entity_id subscriber w = elim (find entity_id w.subscribers) [
    | none ↦ w
    | some ps ↦ record w { subscribers = insert entity_id (remove subscriber ps) w.subscribers }
  ]

  -- `Unsubscribe(subscriber)`
  unfoldable pub unsubscribe_all : ℕ → EventSystem A → EventSystem A
  unsubscribe_all subscriber w = unsubscribe 0 subscriber w

  -- `QueueEvent`
  unfoldable pub queue_event : ℕ → Event A → EventSystem A → EventSystem A
  queue_event q e w = record w {
    queues = λ p. if p == q then w.queues p ++ (e ∷ []) else w.queues p;
  }

  -- The loops of `Emit`, over a copy of the list.
  unfoldable pub queue_to : List ℕ → Event A → EventSystem A → EventSystem A
  queue_to [] e w = w
  queue_to (q ∷ qs) e w = queue_to qs e (queue_event q e w)

  abbrev pub queue_found : ℕ → Event A → EventSystem A → EventSystem A
  queue_found entity_id e w = elim (find entity_id w.subscribers) [
    | none ↦ w
    | some ps ↦ queue_to ps e w
  ]

  -- `Emit(entity_id, data)`
  unfoldable pub emit : ℕ → A → EventSystem A → EventSystem A
  emit entity_id data_of w =
      let e : Event A = record { entity_id = entity_id; data_of = data_of } in
      queue_found 0 e (if entity_id == 0 then w else queue_found entity_id e w)

  -- `Emit(data)`
  unfoldable pub emit_all : A → EventSystem A → EventSystem A
  emit_all data_of w = emit 0 data_of w
