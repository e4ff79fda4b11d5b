-- ===== src/Store/Scanner.antt =====
-- The scanner of Python's `json.loads`, piece by piece, each with the text that is left.
pub mod Numbers
pub mod Strings
pub mod Values
pub mod Numerals
pub mod Integers
pub mod Decimals
pub mod Quoted
pub mod Scalars
pub mod Dicts
pub mod Openings
pub mod RoundTrip
pub mod Encoded
