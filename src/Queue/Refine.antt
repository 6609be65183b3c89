-- ===== src/Queue/Refine.antt =====
-- The pointer operations of queue.h refine the abstract queue.
pub mod Add
pub mod Remove
pub mod Walk
pub mod Order
