-- ===== src/GameState/Client/Predictions.antt =====
-- What `QueueServerState` of client/client-game-state-queue.cpp keeps of the states and of the
-- predictions.
use tec.Base.{
  ℕ, ◌+◌, ◌-◌, ◌%◌, ◌^◌, ◌<◌, ◌≤◌, ◌≡◌, refl, ◌∙◌, true, false, not, ◌&&◌, none, some, List, [],
  ◌∷◌, ◌++◌, length, set, ltb, leb, ◌==◌, if◌then◌else◌, arith, Bool-cases, inl, inr, ltb→lt,
  get_elem?-set_self,
}
use tec.Base.Maps.{Map, find}
use tec.GameState.{GameState}
use tec.GameState.Client.{
  StateQueue, check_loop, check_prediction_result, queue_server_state, queue_all, get_game_state,
  server_states_array_size,
}

-- The states have ids that grow, all above a first one and none above the last one.
abbrev pub Increasing : {X O V : Type 0} → ℕ → ℕ → List (GameState X O V) → Type 0
Increasing low high [] = low ≤ high
Increasing low high (s ∷ ss) = (low < s.state_id) × Increasing s.state_id high ss

-- The queue with a state in its array, before the predictions are checked.
abbrev seen : {X O V : Type 0} → GameState X O V → StateQueue X O V → StateQueue X O V
seen s q = record q {
  server_states_array =
      set q.server_states_array (q.server_state_array_index % server_states_array_size) s;
  server_state_array_index = q.server_state_array_index + 1;
  last_server_state_id = s.state_id;
}

module _ {X O V : Type 0} (origin : X) (still : V) (linear : V → X) (minus : X → X → X) where
  find-check_loop :
      (k ack client_id : ℕ) (state_pos : X) (s : GameState X O V) (ps : Map (GameState X O V))
      (diffs : X × X)
      → find k (check_loop origin still linear minus ack client_id state_pos s ps diffs).0
        ≡ (if leb k ack then none else find k ps)
  unfolding check_loop find
  find-check_loop k ack client_id state_pos s [] diffs = ground arith
  find-check_loop k ack client_id state_pos s ((id, p) ∷ ps) diffs =
      elim (Bool-cases (leb id ack)) [
        | inl old ↦ rw old (find-check_loop k ack client_id state_pos s ps _ ∙ ground (arith, old))
        | inr newer ↦
            rw newer (ground (arith, newer, find-check_loop k ack client_id state_pos s ps diffs))
      ]

  -- What `CheckPredictionResult` leaves alone, and the predictions that it leaves.
  checked_lem :
      (k : ℕ) (s : GameState X O V) (q : StateQueue X O V)
      → let (s', q') = check_prediction_result origin still linear minus s q in
        (s'.state_id ≡ s.state_id)
        × (q'.server_states ≡ q.server_states)
        × (q'.last_server_state_id ≡ q.last_server_state_id)
        × (q'.server_states_array ≡ q.server_states_array)
        × (q'.server_state_array_index ≡ q.server_state_array_index)
        × (find k q'.predictions
            ≡ (if not (q.client_id == 0) && leb k s.command_id then none else find k q.predictions))
  unfolding check_prediction_result
  checked_lem k s q = elim (Bool-cases (q.client_id == 0)) [
    | inl nobody ↦ rw nobody (refl, refl, refl, refl, refl, refl)
    | inr somebody ↦ rw somebody (
      refl,
      refl,
      refl,
      refl,
      refl,
      find-check_loop k s.command_id q.client_id q.stats.server_position_next s q.predictions
          (origin, origin),
    )
  ]

  -- A state from the server is taken if its id is above that of the last one taken, and ignored
  -- otherwise. When it is taken: `GetGameState(1)` returns it; and if the client has an id, no
  -- prediction for the command that it acknowledges or for an earlier one is left, and all others
  -- are, while without an id all predictions are left. The array has its size, and its index, an
  -- `int`, is below the greatest one.
  pub queue_server_state-lem :
      (k : ℕ) (s : GameState X O V) (q : StateQueue X O V)
      → length q.server_states_array ≡ server_states_array_size
      → q.server_state_array_index < 2 ^ 31 - 1
      → let q' : StateQueue X O V = queue_server_state origin still linear minus s q in
        (s.state_id ≤ q.last_server_state_id → q' ≡ q)
        × (q.last_server_state_id < s.state_id
            → (get_game_state 1 q' ≡ some s)
              × (find k q'.predictions ≡ (
                  if not (q.client_id == 0) && leb k s.command_id
                  then none
                  else find k q.predictions)))
  unfolding queue_server_state get_game_state
  queue_server_state-lem k s q size small =
      let i : ℕ = q.server_state_array_index in
      let (_, _, _, array, index, left) = checked_lem k s (seen s q) in
      let place : (i + 1 + (2 ^ 32 - 1)) % 2 ^ 32 % server_states_array_size
          ≡ i % server_states_array_size =
        omega arith in
      let inside : i % server_states_array_size < length q.server_states_array = omega arith in
      (
        λ h.
            let no : ltb q.last_server_state_id s.state_id ≡ false = ground (arith, h) in
            rw no refl,
        λ h.
            let yes : ltb q.last_server_state_id s.state_id ≡ true = ground (arith, h) in
            rw (yes, array, index, place)
              (
                get_elem?-set_self q.server_states_array (i % server_states_array_size) s inside,
                left,
              ),
      )

snoc-Increasing :
    {X O V : Type 0} (low high : ℕ) (ss : List (GameState X O V)) (s : GameState X O V)
    → Increasing low high ss
    → high < s.state_id
    → Increasing low s.state_id (ss ++ (s ∷ []))
snoc-Increasing low high [] s h n = (omega arith, omega arith)
snoc-Increasing low high (t ∷ ss) s h n = (h.0, snoc-Increasing t.state_id high ss s h.1 n)

module _ {X O V : Type 0} (origin : X) (still : V) (linear : V → X) (minus : X → X → X) where
  queue_server_state-Increasing :
      (low : ℕ) (s : GameState X O V) (q : StateQueue X O V)
      → Increasing low q.last_server_state_id q.server_states
      → let q' : StateQueue X O V = queue_server_state origin still linear minus s q in
        Increasing low q'.last_server_state_id q'.server_states
  unfolding queue_server_state
  queue_server_state-Increasing low s q h =
      elim (Bool-cases (ltb q.last_server_state_id s.state_id)) [
        | inr older ↦ rw older h
        | inl newer ↦
            let (id, states, last, _, _, _) =
              checked_lem origin still linear minus 0 s (seen s q) in
            rw (newer, states, last)
              (rw id at (
                snoc-Increasing low q.last_server_state_id q.server_states
                  (check_prediction_result origin still linear minus s (seen s q)).0 h
                  (omega (arith, id, ltb→lt q.last_server_state_id s.state_id newer))))
      ]

  -- Whatever states arrive, in whatever order: the states that wait to be interpolated have ids that
  -- grow from one to the next, none of them above the last id taken.
  pub queue_all-Increasing :
      (low : ℕ) (ss : List (GameState X O V)) (q : StateQueue X O V)
      → Increasing low q.last_server_state_id q.server_states
      → let q' : StateQueue X O V = queue_all origin still linear minus ss q in
        Increasing low q'.last_server_state_id q'.server_states
  unfolding queue_all
  queue_all-Increasing low [] q h = h
  queue_all-Increasing low (s ∷ ss) q h =
      queue_all-Increasing low ss (queue_server_state origin still linear minus s q)
        (queue_server_state-Increasing low s q h)
