-- ===== src/Services/Edl.antt =====
-- oresat_c3/services/edl.py: the service that takes commands and files from the ground.
--
-- The queues are lists, the oldest entry first; a frame in a downlink queue stands for its bytes.
-- What a command does outside of the services that are modelled is appended to `effects`, the newest
-- first, and what comes back from there is part of an `Env`. A method returns whether it raised.
pub mod State
pub mod Frames
pub mod Commands
pub mod Kept
pub mod Answered
pub mod Bounds
pub mod Loop
pub mod Typed
pub mod Numbers
pub mod Replay
pub mod Rejected
mod Tests
