-- ===== src/Services.antt =====
-- minigames-services: the services of the server. `Minigame` runs a board game, `Lobby` gathers its two
-- players and starts it, `Chat` passes messages on.
pub mod Minigame
pub mod Lobby
pub mod Chat
