-- ===== src/Client/History.antt =====
-- The pings that `SyncHandler` of client/server-connection.cpp keeps.
use tec.Base.{
  ℕ, ◌-◌, ◌/◌, ◌≤◌, ◌≡◌, refl, ap, sym, ◌∙◌, List, [], ◌∷◌, ◌++◌, length, leb, if◌then◌else◌, arith,
  Bool-cases, inl, inr, drop, drop_none, append_assoc, append-nil, length-append,
}
use tec.Base.Newest.{newest, newest-append, length-drop}
use tec.Net.Message.{Message}
use tec.Client.{Pings, ping_history_size, total, pop_front, sync_handler, sync_all}

-- Half of each round trip.
unfoldable pub halves : List (ℕ × Message) → List ℕ
halves [] = []
halves ((round_trip, message) ∷ ms) = round_trip / 2 ∷ halves ms

one_more :
    (ping : ℕ) (pings : List ℕ)
    → length pings ≤ ping_history_size
    → (if leb ping_history_size (length pings) then pop_front pings else pings) ++ (ping ∷ [])
      ≡ newest ping_history_size (pings ++ (ping ∷ []))
one_more ping [] h = refl
one_more ping (q ∷ qs) h = elim (Bool-cases (leb ping_history_size (length (q ∷ qs)))) [
  | inl full ↦
      let count : length ((q ∷ qs) ++ (ping ∷ [])) - ping_history_size ≡ 1 =
        ground (arith, full, h, length-append (q ∷ qs) (ping ∷ [])) in
      rw full (sym (ap (λ n. drop n ((q ∷ qs) ++ (ping ∷ []))) count))
  | inr room ↦
      let count : length ((q ∷ qs) ++ (ping ∷ [])) - ping_history_size ≡ 0 =
        ground (arith, room, length-append (q ∷ qs) (ping ∷ [])) in
      rw room (sym (drop_none _ ((q ∷ qs) ++ (ping ∷ [])) count))
]

-- However many SYNC messages have come: the pings kept are the last 10 of those kept before and of the
-- halves of the round trips, in order; at most 10; and if a message has come, their average is taken
-- over 10, also when there are fewer.
pub sync_all-newest :
    (ms : List (ℕ × Message)) (p : Pings)
    → length p.recent_pings ≤ ping_history_size
    → p.average_ping ≡ total p.recent_pings / ping_history_size
    → ((sync_all ms p).recent_pings ≡ newest ping_history_size (p.recent_pings ++ halves ms))
      × (length (sync_all ms p).recent_pings ≤ ping_history_size)
      × ((sync_all ms p).average_ping ≡ total (sync_all ms p).recent_pings / ping_history_size)
unfolding sync_all halves sync_handler
sync_all-newest [] p h a = (
  sym (
      drop_none _ (p.recent_pings ++ []) (omega (arith, length-append p.recent_pings []))
      ∙ append-nil p.recent_pings),
  h,
  a,
)
sync_all-newest ((round_trip, message) ∷ ms) p h a =
    let one = one_more (round_trip / 2) p.recent_pings h in
    let kept : List ℕ = p.recent_pings ++ (round_trip / 2 ∷ []) in
    let size : length (sync_handler round_trip message p).recent_pings ≤ ping_history_size =
      omega (arith, ap length one, length-drop (length kept - ping_history_size) kept) in
    let (recent, bounded, average) =
      sync_all-newest ms (sync_handler round_trip message p) size refl in
    (
      recent
          ∙ ap (λ t. newest ping_history_size (t ++ halves ms)) one
          ∙ newest-append ping_history_size kept (halves ms)
          ∙ ap (newest ping_history_size)
              (append_assoc p.recent_pings (round_trip / 2 ∷ []) (halves ms)),
      bounded,
      average,
    )
