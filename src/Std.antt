-- ===== src/Std.antt =====
-- The containers of the C++ standard library that the program uses.
pub mod Order
pub mod Set
pub mod Map
