-- ===== src/Money.antt =====
-- internal/money: amounts in minor units, their text form, and exact exchange rates.
pub mod Currency
pub mod Text
pub mod Major
pub mod Rate
pub mod Digits
pub mod RoundTrip
pub mod Rounding
