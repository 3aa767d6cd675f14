-- ===== src/Go.antt =====
-- The functions of Go's standard library that the source uses, on texts as lists of bytes.
pub mod Strconv
pub mod Strings
pub mod Http
pub mod Ascii
pub mod Net
