-- ===== src/Events.antt =====
-- common/event-system.hpp, common/event-queue.hpp and common/command-queue.hpp: events to the queues
-- that subscribed to them, and the queues that hold events and commands until they are handled.
pub mod EventSystem
pub mod DoubleQueue
pub mod Delivery
pub mod Tests
