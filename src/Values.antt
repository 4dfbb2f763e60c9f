-- ===== src/Values.antt =====
-- interfaces/values.py: the texts that values travel as.
pub mod Types
pub mod Numbers
pub mod Python
pub mod Encode
mod Digits
mod Integers
mod RoundTrip
mod Tests
