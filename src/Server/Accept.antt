-- ===== src/Server/Accept.antt =====
-- `OnConnect` and `AcceptHandler` of server/server.cpp. The scripts that are asked about a connection, and
-- the socket, are parameters: a script is given the default answer and returns whether it rejects the
-- client, with a reason.
pub mod Rejected
mod Tests
use tec.Base.{ℕ, Bool, true, false, List, [], ◌∷◌, ◌++◌, length, if◌then◌else◌}
use tec.Base.Maps.{insert}
use tec.Net.Message.{Message, get, set_body_length, encode_header, fill, wire}
use tec.Server.World.{Client, Server}

-- What `OnConnect` comes to: it returns true, or false behind having written these bytes, or the
-- `std::length_error` of `SetBodyLength` leaves it.
pub data Answer : Type 0 where
  accepted : Answer
  rejected : List ℕ → Answer
  threw : Answer

-- `reject_msg`, and whether `SetBodyLength` returns.
unfoldable pub reject_message : List ℕ → Message × Bool
reject_message reject_reason =
    let (m, fits) = set_body_length (length reject_reason) get in
    (encode_header (fill reject_reason m), fits)

-- `OnConnect`
unfoldable pub on_connect : (Bool × List ℕ → Bool × List ℕ) → List ℕ → Answer
on_connect script default_reason =
    let (cancel, reason) = script (false, default_reason) in
    let (m, fits) = reject_message (reason ++ (10 ∷ [])) in
    if cancel then (if fits then rejected (wire m) else threw) else accepted

-- The server with its acceptor: whether an `async_accept` waits, and whether `run` goes on. `turned_away`
-- has what was written to the clients that were rejected.
pub record Acceptor (E P O V : Type 0) : Type 0 where
  pub server : Server E P O V
  pub accepting : Bool
  pub running : Bool
  pub turned_away : List (List ℕ)

module _ {E P O V : Type 0} where
  -- The handler of `async_accept` without an error, given the answer, for the client that is made of the
  -- peer. An exception leaves the handler and with it `run`.
  unfoldable pub answer : Answer → ℕ → Client P O V → Acceptor E P O V → Acceptor E P O V
  answer accepted address client a = record a {
    server = record a.server { clients = insert address client a.server.clients };
    accepting = true;
  }
  answer (rejected bytes) address client a = record a {
    turned_away = a.turned_away ++ (bytes ∷ []);
    accepting = true;
  }
  answer threw address client a = record a { accepting = false; running = false }

  -- The handler of `async_accept`: whether there was an error, the scripts, and the client to be made.
  unfoldable pub on_accept :
      Bool
      → (Bool × List ℕ → Bool × List ℕ)
      → List ℕ
      → ℕ
      → Client P O V
      → Acceptor E P O V
      → Acceptor E P O V
  on_accept error script default_reason address client a =
      if error
      then record a { accepting = true }
      else answer (on_connect script default_reason) address client a
