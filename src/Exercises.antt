-- ===== src/Exercises.antt =====
-- Exercises of 01-lowlevel-academy-c and of 03-posix-threads/04_advanced_pthread_concepts.
pub mod StaticVars
pub mod DynamicMalloc
pub mod DoublePointers
pub mod Loops
pub mod Unions
pub mod ThreadLocal
pub mod ThreadKey
pub mod Structures
pub mod Conditionals
pub mod Casting
pub mod ThreadAttributes
pub mod Functions
