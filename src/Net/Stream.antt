-- ===== src/Net/Stream.antt =====
-- The bytes of a connection cut into messages: `read_header` and `read_body` of
-- server/client-connection.cpp (and of client/server-connection.cpp) over the bytes that arrive.
-- A function of the whole input: `asio::async_read` completes once the buffer is full, however the
-- bytes arrive, and reports an error where the connection ends before that.
use tec.Base.{
  ℕ, zero, suc, Option, none, some, List, [], ◌∷◌, length, take, drop, ltb, if◌then◌else◌,
}
use tec.Net.Message.{Message, get, header_length, decode_header, fill}

-- `read_header` with `current_read_msg` fresh from the pool: `none` leads to `OnDisconnect`.
unfoldable pub read_header : List ℕ → Option (Message × List ℕ)
read_header bytes =
    let (msg, accepted) = decode_header (record get { header = take header_length bytes }) in
    if ltb (length bytes) header_length
    then none
    else if accepted
    then some (msg, drop header_length bytes)
    else none

-- `read_body`, up to the handling of the message.
unfoldable pub read_body : Message → List ℕ → Option (Message × List ℕ)
read_body msg bytes =
    if ltb (length bytes) msg.body_length
    then none
    else some (fill (take msg.body_length bytes) msg, drop msg.body_length bytes)

unfoldable pub read_message : List ℕ → Option (Message × List ℕ)
read_message bytes = elim (read_header bytes) [
  | none ↦ none
  | some (msg, rest) ↦ read_body msg rest
]

-- The messages read before the connection ends. Each takes at least a header, so the fuel of one round
-- for each byte, and one more, is enough.
unfoldable pub read_messages : ℕ → List ℕ → List Message
read_messages zero bytes = []
read_messages (suc fuel) bytes = elim (read_message bytes) [
  | none ↦ []
  | some (msg, rest) ↦ msg ∷ read_messages fuel rest
]
