-- ===== src/Net/MessageType.antt =====
-- common/net-message.hpp: `enum MessageType : int`; a type read from the wire may be any 32 bits.
use tec.Base.{ℕ}

abbrev pub sync : ℕ
sync = 0

abbrev pub multi_part : ℕ
multi_part = 1

abbrev pub client_command : ℕ
client_command = 2

abbrev pub entity_create : ℕ
entity_create = 3

abbrev pub entity_destroy : ℕ
entity_destroy = 4

abbrev pub client_join : ℕ
client_join = 5

abbrev pub client_id : ℕ
client_id = 6

abbrev pub client_leave : ℕ
client_leave = 7

abbrev pub game_state_update : ℕ
game_state_update = 8

abbrev pub chat_message : ℕ
chat_message = 9

abbrev pub chat_command : ℕ
chat_command = 10

abbrev pub login : ℕ
login = 11

abbrev pub authenticated : ℕ
authenticated = 12

abbrev pub world_sent : ℕ
world_sent = 13

abbrev pub client_ready_to_receive : ℕ
client_ready_to_receive = 14
