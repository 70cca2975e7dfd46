-- ===== src/SeatBooking.antt =====
-- relational-db/exclusive-locks/
pub mod Pool
pub mod PoolSafety
pub mod Bookings
pub mod Locked
pub mod Unlocked
pub mod Optimistic
pub mod Versioned
pub mod Attempts
pub mod Tests
pub mod BookingTests
