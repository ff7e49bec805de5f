-- ===== src/Server/Accept/Tests.antt =====
-- Tests of connections that are accepted or rejected (server/server.cpp).
use tec.Base.{ℕ, suc, ◌<◌, ◌≤◌, ◌≡◌, Bool, true, false, List, [], ◌∷◌, length}
use tec.Net.MessageType
use tec.Net.Message.{Message, payload}
use tec.Net.Stream.{read_messages}
use tec.Server.Accept.{accepted, rejected, threw, on_connect}
use tec.Server.Accept.Rejected.{on_connect-lem}

abbrev full_up : Bool × List ℕ → Bool × List ℕ
full_up (cancel, reason) = (true, b'f' ∷ b'u' ∷ b'l' ∷ b'l' ∷ [])

on_connect-lem_example :
    (true ≡ false → on_connect full_up [] ≡ accepted)
    × (true ≡ true
        → 4 < 1024
        → (bytes : List ℕ) × (m : Message) × (on_connect full_up [] ≡ rejected bytes)
          × (read_messages (suc (length bytes)) bytes ≡ m ∷ [])
          × (m.message_type ≡ MessageType.chat_message)
          × (payload m ≡ b'f' ∷ b'u' ∷ b'l' ∷ b'l' ∷ 10 ∷ []))
    × (true ≡ true → 1024 ≤ 4 → on_connect full_up [] ≡ threw)
on_connect-lem_example = on_connect-lem full_up []
