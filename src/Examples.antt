-- ===== src/Examples.antt =====
-- Concrete runs of the model: shops, breakers and buckets at which the results are applied.
pub mod Admissions
pub mod Guards
pub mod Tables
pub mod Identities
pub mod Purchases
pub mod Publications
pub mod Resets
pub mod Archives
pub mod Codec
