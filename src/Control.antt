-- ===== src/Control.antt =====
-- The commands of the control socket, on the server's side: the market of a shard (Market), what
-- CoreControl collects and IpcCommandHandler answers (Commands), and the worker (Worker).
-- nlohmann::json is a parameter: the record of the operations that the code calls.
pub mod Json
pub mod Market
pub mod Commands
pub mod Worker
pub mod Conversation
