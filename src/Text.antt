-- ===== src/Text.antt =====
-- common/utils.cpp and the number formats of the standard library that the program uses.
pub mod Decimal
pub mod Strings
pub mod Paths
pub mod Number
