-- ===== src/Game.antt =====
-- Rules of GameLogic whose arithmetic is on integers: the market (Economy.h) and chat
-- (ChatModeration.h).
pub mod Market
pub mod Chat
mod Tests
