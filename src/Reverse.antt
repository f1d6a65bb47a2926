-- ===== src/Reverse.antt =====
-- internal/reverse: the agent's connection to the broker.
pub mod Frame
pub mod Send
pub mod Command
pub mod Connection
pub mod Owner
pub mod Supervisor
