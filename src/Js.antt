-- ===== src/Js.antt =====
-- The parts of the ECMAScript library that the front ends call: strings as lists of UTF-16 code
-- units, and the numbers that `parseInt` returns.
pub mod Number
pub mod Strings
pub mod Splitting
