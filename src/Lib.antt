-- ===== src/Lib.antt =====
-- A verification library for the engine's core: the code that its server and its client share, and
-- the protocol between them.
--
-- Parts, and where their code is.
--   RingBuffer      common/ring-buffer.hpp. A fixed array with a write and a read index; `run` is a
--                   sequence of calls, `RingBuffer.Refine` compares it with a bounded queue.
--   Net             common/net-message.hpp and common/net-message.cpp. `Message` is one fragment with
--                   its header, `Net.Out` is `MessageOut`, `Net.In` is `MessageIn`, each operation a
--                   function from state to state. `Net.Stream` cuts the bytes of a connection into
--                   messages as server/client-connection.cpp does; `Net.RoundTrip` joins the parts.
--   FilePath        common/filesystem.cpp. A path is a device and a text, a text the list of its bytes;
--                   `FilePath.Parts` has the operations on normalized paths.
--   Events          common/event-system.hpp, common/event-queue.hpp, common/command-queue.hpp.
--                   `Events.EventSystem` is who gets an event, `Events.DoubleQueue` the queues that
--                   are exchanged before their entries are handled.
--   Multiton        common/multiton.hpp.
--   GameState       common/game-state.hpp, server/server-game-state-queue.cpp, and the state changes of
--                   server/client-connection.cpp; `GameState.Client` is
--                   client/client-game-state-queue.cpp.
--   Server          `Server.Reader` collects the messages of a connection (server/client-connection.cpp,
--                   client/server-connection.cpp), `Server.Writer` is its write queue, `Server.World`
--                   what server/server.cpp does with its clients, `Server.Process` what a
--                   complete body makes a connection do, `Server.Accept` how connections come.
--   Users           `UserList` and `LoadUsers` of server/save-game.cpp, and
--                   server/system/user-authenticator.hpp.
--                   `Users.SaveGame` is `SaveGame` with the messages of the users.
--   Client          client/server-connection.cpp: pings and state updates; `Client.Link` is the
--                   connection with its queue and its handlers, `Client.Handshake` joins it with the server.
--   Components      common/components/transforms.cpp and velocity.hpp, the values that the messages carry.
--   Controller      common/controllers/fps-controller.cpp: the keys and the mouse, `Update` and the
--                   commands by which the server replays a client's controller.
--   Simulation      common/simulation.cpp: what a frame does with events, controllers and physics. It
--                   uses a controller through the record `Controls`, which `fps_controls` fills.
--   Console         client/gui/console.cpp: lines in a ring buffer, commands by name, `enter`.
--   VComputer       common/vcomputer-system.cpp: which keyboard has the focus and what it is sent; an
--                   input is a key, a click or a new entity. `VComputer.Focus` has the invariant.
--   Voxels          client/voxel-volume.cpp: the voxels that `AddVoxel` and `RemoveVoxel` leave.
-- Events carry the news of entities to GameState and Server; Server cuts what it writes with Net.Out and
-- reads with Net.In; a state update goes from GameState on the server to GameState.Client.
--
-- Numbers. A byte is a number below 2^8, a `uint32_t` one below 2^32, with the wrap-around of a sum
-- written out. A shared pointer to a message is the message, since no two entries of a list point
-- at one.
--
-- Fuel. The loop of `from_buffer` is given a round for each byte and one more: each round but the last
-- uses up 1024 bytes. `next` needs a round for each message and one more, since each round passes a
-- message; `read_string`, `read_buffer` and `skip` need one for each byte and one more, since each
-- round takes a byte at least. A result that is `none` whatever the fuel stands for code that
-- does not return.
--
-- Not modelled: calls of the operating system, of graphics, sound and physics libraries, the
-- protocol buffers' own code and logging.
pub mod Base
pub mod RingBuffer
pub mod Net
pub mod FilePath
pub mod Events
pub mod Multiton
pub mod GameState
pub mod Server
pub mod Users
pub mod Client
pub mod Components
pub mod Controller
pub mod Simulation
pub mod Console
pub mod VComputer
pub mod Voxels
