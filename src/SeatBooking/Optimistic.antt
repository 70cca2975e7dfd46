-- ===== src/SeatBooking/Optimistic.antt =====
-- relational-db/exclusive-locks/optimisticlock/booking.go: bookSeat of a goroutine, as a machine that takes
-- the database's answers, and several of them on one table.
use design_pocs.Common.{
  ℕ, zero, suc, ◌+◌, Bool, true, false, Option, some, List, [], ◌∷◌, ltb, if◌then◌else◌,
}
use design_pocs.SeatBooking.Bookings.{Updated, update_error, count_error, affected, set}

abbrev pub max_attempts : ℕ
max_attempts = 50

-- The answers to Begin, SELECT, UPDATE with RowsAffected, and COMMIT. A SELECT without a row is an error.
pub data VersionAnswer : Type 0 where
  tx_begun : Bool → VersionAnswer
  tx_error : VersionAnswer
  tx_row : (seat version : ℕ) → VersionAnswer
  tx_updated : Updated → VersionAnswer
  tx_committed : Bool → VersionAnswer

-- Within an attempt: before Begin, and before the answer of SELECT, of UPDATE and of COMMIT.
pub data Stage : Type 0 where
  beginning selecting : Stage
  writing committing : (seat version : ℕ) → Stage

-- In an attempt, or ended: with a seat, without one behind the last attempt, or by a panic.
pub data Attempt : Type 0 where
  trying : (attempt : ℕ) → Stage → Attempt
  got_seat : (seat version : ℕ) → Attempt
  gave_up panicked : Attempt

-- continue
unfoldable pub next_attempt : ℕ → Attempt
next_attempt j = if ltb j max_attempts then trying (suc j) beginning else gave_up

abbrev pub write_counted : ℕ → ℕ → ℕ → ℕ → Attempt
write_counted j i w zero = next_attempt j
write_counted j i w (suc n) = trying j (committing i w)

-- When Begin fails, its transaction is nil, and Rollback on it panics. An answer to a call that the
-- goroutine has not made changes nothing.
unfoldable pub attempt_seat : VersionAnswer → Attempt → Attempt
unfolding next_attempt
attempt_seat (tx_begun true) (trying j beginning) = trying j selecting
attempt_seat (tx_begun false) (trying j beginning) = panicked
attempt_seat tx_error (trying j selecting) = next_attempt j
attempt_seat (tx_row i w) (trying j selecting) = trying j (writing i w)
attempt_seat (tx_updated update_error) (trying j (writing i w)) = next_attempt j
attempt_seat (tx_updated count_error) (trying j (writing i w)) = next_attempt j
attempt_seat (tx_updated (affected n)) (trying j (writing i w)) = write_counted j i w n
attempt_seat (tx_committed true) (trying j (committing i w)) = got_seat i w
attempt_seat (tx_committed false) (trying j (committing i w)) = next_attempt j
attempt_seat _ b = b

-- What bookSeat returns, once it does: no error, or nothing because it panics.
pub data Returned : Type 0 where
  returned_nil : Returned
  panics : Returned
  still_running : Returned

unfoldable pub attempt_result : Attempt → Returned
attempt_result (trying j s) = still_running
attempt_result (got_seat i w) = returned_nil
attempt_result gave_up = returned_nil
attempt_result panicked = panics

-- The goroutine of each user, and the committed user_id and version of each seat.
pub record Versions : Type 0 where
  pub attempts : ℕ → Attempt
  pub owners : ℕ → Option ℕ
  pub versions : ℕ → ℕ

-- COMMIT puts the user into the seat that UPDATE named, and raises its version.
unfoldable pub owners_after : ℕ → VersionAnswer → Attempt → (ℕ → Option ℕ) → ℕ → Option ℕ
owners_after u (tx_committed true) (trying j (committing i w)) owners = set i (some u) owners
owners_after u _ b owners = owners

unfoldable pub versions_after : VersionAnswer → Attempt → (ℕ → ℕ) → ℕ → ℕ
versions_after (tx_committed true) (trying j (committing i w)) versions =
    set i (versions i + 1) versions
versions_after _ b versions = versions

unfoldable pub answer_attempt : ℕ → VersionAnswer → Versions → Versions
unfolding attempt_seat owners_after versions_after
answer_attempt u a s = record {
  attempts = set u (attempt_seat a (s.attempts u)) s.attempts;
  owners = owners_after u a (s.attempts u) s.owners;
  versions = versions_after a (s.attempts u) s.versions;
}

unfoldable pub answer_attempts : List (ℕ × VersionAnswer) → Versions → Versions
unfolding answer_attempt
answer_attempts [] s = s
answer_attempts ((u, a) ∷ h) s = answer_attempts h (answer_attempt u a s)

-- BookSeats starts every goroutine in its first attempt.
abbrev pub everyone_begins : (ℕ → Option ℕ) → (ℕ → ℕ) → Versions
everyone_begins owners versions = record {
  attempts = λ u. trying 1 beginning;
  owners = owners;
  versions = versions;
}
