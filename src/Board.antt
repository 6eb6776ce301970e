-- ===== src/Board.antt =====
-- minigames-services: the board games. `Grid` and `Axis` hold the matrix of squares and the iterator
-- over its axes, `Game` the base class, `Acores`, `Bermudes` and `Canaries` the three rule sets.
pub mod Grid
pub mod Axis
pub mod Game
pub mod Acores
pub mod Bermudes
pub mod Canaries
pub mod Any
