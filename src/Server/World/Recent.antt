-- ===== src/Server/World/Recent.antt =====
-- The messages that a client is sent when it joins (`Deliver` of server/server.cpp).
use tec.Base.{
  suc, ◌-◌, ◌<◌, ◌≤◌, ◌≡◌, refl, ap, sym, ◌∙◌, Bool, true, false, List, [], ◌∷◌, ◌++◌, length,
  drop_none, ltb, ltb→lt, if◌then◌else◌, arith, Bool-cases, inl, inr, append-nil, append_assoc,
  length-append,
}
use tec.Base.Newest.{newest, newest-append, length-drop}
use tec.Net.Out.{MessageOut}
use tec.Server.World.{Server, max_recent_msgs, drop_oldest, deliver}

drop_oldest-newest : (ms : List MessageOut) → drop_oldest ms ≡ newest max_recent_msgs ms
unfolding drop_oldest
drop_oldest-newest [] = refl
drop_oldest-newest (m ∷ ms) = elim (Bool-cases (ltb max_recent_msgs (length (m ∷ ms)))) [
  | inl many ↦
      let more : max_recent_msgs < suc (length ms) =
        ltb→lt max_recent_msgs (length (m ∷ ms)) many in
      let count : suc (length ms) - max_recent_msgs ≡ suc (length ms - max_recent_msgs) =
        omega arith in
      rw (many, count) (drop_oldest-newest ms)
  | inr few ↦
      let count : suc (length ms) - max_recent_msgs ≡ 0 = ground (arith, few) in
      rw few (sym (drop_none (suc (length ms) - max_recent_msgs) (m ∷ ms) count))
]

module _ {E P O V : Type 0} where
  unfoldable pub deliver_all : List (MessageOut × Bool) → Server E P O V → Server E P O V
  deliver_all [] s = s
  deliver_all ((msg, save) ∷ ms) s = deliver_all ms (deliver msg save s)

-- The messages to be saved.
unfoldable pub saved : List (MessageOut × Bool) → List MessageOut
saved [] = []
saved ((msg, save) ∷ ms) = if save then msg ∷ saved ms else saved ms

-- Whatever messages are delivered: the recent messages are the last 100 of those that there were,
-- followed by those delivered to be saved, in order.
pub deliver_all-newest :
    {E P O V : Type 0} (ms : List (MessageOut × Bool)) (s : Server E P O V)
    → length s.recent_msgs ≤ max_recent_msgs
    → (deliver_all ms s).recent_msgs ≡ newest max_recent_msgs (s.recent_msgs ++ saved ms)
unfolding deliver_all saved deliver
deliver_all-newest [] s h = sym (
    drop_none _ (s.recent_msgs ++ []) (omega (arith, length-append s.recent_msgs []))
    ∙ append-nil s.recent_msgs)
deliver_all-newest ((msg, true) ∷ ms) s h =
    let kept = s.recent_msgs ++ (msg ∷ []) in
    let one : drop_oldest kept ≡ newest max_recent_msgs kept = drop_oldest-newest kept in
    let size : length (drop_oldest kept) ≤ max_recent_msgs =
      omega (arith, ap length one, length-drop (length kept - max_recent_msgs) kept) in
    deliver_all-newest ms (deliver msg true s) size
    ∙ ap (λ t. newest max_recent_msgs (t ++ saved ms)) one
    ∙ newest-append max_recent_msgs kept (saved ms)
    ∙ ap (newest max_recent_msgs) (append_assoc s.recent_msgs (msg ∷ []) (saved ms))
deliver_all-newest ((msg, false) ∷ ms) s h = deliver_all-newest ms (deliver msg false s) h
