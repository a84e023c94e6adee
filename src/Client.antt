-- ===== src/Client.antt =====
-- code/client: the game client.
pub mod Arc4
pub mod Network
pub mod Kstr
pub mod Event
