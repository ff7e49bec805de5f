-- ===== src/GameState/Client/Dropped.antt =====
-- Which states `Interpolate` of client/client-game-state-queue.cpp drops.
use tec.Base.{ℕ, ◌≡◌, ◌⊎◌, refl, ap, true, false, List, [], ◌∷◌, ◌++◌, Bool-cases, inl, inr}
use tec.GameState.{GameState}
use tec.GameState.Client.Interpolate.{Blend, drop_states}

module _ {X O V D L : Type 0} (blend : Blend X O V D L) where
  -- A number of rates less, and whether there is a rate each time.
  abbrev pub less_rates : List (GameState X O V) → D → D
  less_rates [] time = time
  less_rates (s ∷ ss) time = less_rates ss (blend.take_rate time)

  abbrev pub Due : List (GameState X O V) → D → Type 0
  Due [] time = Unit
  Due (s ∷ ss) time = (blend.reached time ≡ true) × Due ss (blend.take_rate time)

  -- What is left of states and of time: states are dropped while there is a rate of time for each,
  -- which is taken off, until there is no state or no rate.
  pub record Dropped (ss left : List (GameState X O V)) (time time' : D) : Type 0 where
    pub dropped : List (GameState X O V)
    pub split : ss ≡ dropped ++ left
    pub due : Due dropped time
    pub taken : time' ≡ less_rates dropped time
    pub ends : (left ≡ []) ⊎ (blend.reached time' ≡ false)

module _ {X O V D L : Type 0} (blend : Blend X O V D L) (dangling : ℕ) where
  drop_states-Dropped :
      (ss : List (GameState X O V)) (seen base_id : ℕ) (time : D)
      → let (left, (id, time')) = drop_states blend dangling ss seen base_id time in
        Dropped blend ss left time time'
  unfolding drop_states
  drop_states-Dropped [] seen base_id time = record {
    dropped = [];
    split = refl;
    due = tt;
    taken = refl;
    ends = inl refl;
  }
  drop_states-Dropped (s ∷ ss) seen base_id time = elim (Bool-cases (blend.reached time)) [
    | inl full ↦
        let d = drop_states-Dropped ss dangling seen (blend.take_rate time) in
        rw full (record {
          dropped = s ∷ d.dropped;
          split = ap (λ t. s ∷ t) d.split;
          due = (full, d.due);
          taken = d.taken;
          ends = d.ends;
        })
    | inr short ↦
        rw short (record { dropped = []; split = refl; due = tt; taken = refl; ends = inr short })
  ]

  pub drop_states-front :
      (to_state : GameState X O V) (rest states : List (GameState X O V)) (seen base_id : ℕ)
      (time : D)
      → states ≡ to_state ∷ rest
      → blend.reached time ≡ true
      → let (left, (id, time')) = drop_states blend dangling states seen base_id time in
        Dropped blend rest left (blend.take_rate time) time'
  unfolding drop_states
  drop_states-front to_state rest states seen base_id time next due =
      rw (next, due) (drop_states-Dropped rest dangling seen (blend.take_rate time))
