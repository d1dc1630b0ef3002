-- ===== src/RingBuffer/Refine.antt =====
-- A valid ring behaves as the queue of the items that it holds.
mod Index
pub mod Holds
pub mod Put
mod Get
pub mod Run
use independent_study.Base.{ℕ}
