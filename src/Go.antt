-- ===== src/Go.antt =====
-- What the program uses of Go itself: errors, contexts, maps, the clock and numbers as text.
pub mod Errors
pub mod Context
pub mod Map
pub mod Machine
pub mod Strconv
pub mod Strings
pub mod Outcome
pub mod Json
