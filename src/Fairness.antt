-- ===== src/Fairness.antt =====
-- concurrency-examples/fairness/
pub mod Primes
pub mod Workers
pub mod Tests
