-- ===== src/DateTime.antt =====
-- sdk/core/azure-core/src/datetime.cpp: the class `DateTime`.
pub mod Calendar
pub mod Format
pub mod Parse
pub mod Years
pub mod Months
pub mod Moments
pub mod Digits
pub mod Fractions
pub mod RoundTrip
pub mod Rfc1123
pub mod Gregorian
pub mod Construct
mod Tests
