-- ===== src/Python.antt =====
-- What the program uses of Python itself: numbers, dynamic values as JSON and YAML give them, and
-- exceptions as results.
pub mod Result
pub mod Equal
pub mod Float
pub mod Value
pub mod Sorted
