-- ===== src/Util.antt =====
-- util: float64 amounts, currencies, passwords.
pub mod Config
pub mod Random
pub mod Float
pub mod Currencies
pub mod Password
