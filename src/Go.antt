-- ===== src/Go.antt =====
-- What the program uses of Go's language and standard library: float64, time, strings, strconv.
pub mod Float
pub mod Time
pub mod Strings
pub mod Strconv
pub mod Result
