-- ===== src/Leetcode.antt =====
-- go-leetcode: the solutions, each in a module of its own.
pub mod Seats
pub mod Pairs
pub mod Tickets
mod Tests
