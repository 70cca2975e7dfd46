-- ===== src/SeatBooking/Attempts.antt =====
-- relational-db/exclusive-locks/optimisticlock/booking.go: bookSeat ends.
use design_pocs.Common.{
  ℕ, ◌+◌, ◌-◌, ◌*◌, ◌≤◌, ◌<◌, ◌≡◌, Bool, true, false, List, [], ◌∷◌, length, arith,
}
use design_pocs.SeatBooking.Optimistic.{
  VersionAnswer, tx_begun, tx_error, tx_row, tx_updated, tx_committed, Stage, beginning, selecting,
  writing, committing, Attempt, trying, next_attempt, attempt_seat, max_attempts,
}

-- The answer is to the call that the goroutine has made last.
abbrev pub is_answer : VersionAnswer → Attempt → Bool
is_answer (tx_begun b) (trying j beginning) = true
is_answer tx_error (trying j selecting) = true
is_answer (tx_row i w) (trying j selecting) = true
is_answer (tx_updated e) (trying j (writing i w)) = true
is_answer (tx_committed b) (trying j (committing i w)) = true
is_answer a b = false

abbrev pub AreAnswers : List VersionAnswer → Attempt → Type 0
AreAnswers [] b = Unit {0}
AreAnswers (a ∷ h) b = (is_answer a b ≡ true) × AreAnswers h (attempt_seat a b)

abbrev pub attempt_all : List VersionAnswer → Attempt → Attempt
attempt_all [] b = b
attempt_all (a ∷ h) b = attempt_all h (attempt_seat a b)

abbrev calls_of : Stage → ℕ
calls_of beginning = 4
calls_of selecting = 3
calls_of (writing i w) = 2
calls_of (committing i w) = 1

-- The calls that the goroutine can still make.
abbrev calls_left : Attempt → ℕ
calls_left (trying j stage) = 4 * (max_attempts - j) + calls_of stage
calls_left b = 0

attempt_seat-calls_left :
    (a : VersionAnswer) (b : Attempt)
    → is_answer a b ≡ true
    → calls_left (attempt_seat a b) < calls_left b
unfolding attempt_seat next_attempt
attempt_seat-calls_left a b h = ground arith

answers_left :
    (h : List VersionAnswer) (b : Attempt)
    → AreAnswers h b
    → length h + calls_left (attempt_all h b) ≤ calls_left b
answers_left [] b all = omega arith
answers_left (a ∷ h) b (fits, all) =
    omega (arith, answers_left h (attempt_seat a b) all, attempt_seat-calls_left a b fits)

-- Whatever the database answers, bookSeat gets the answers of at most four calls in each of 50 attempts,
-- so it has returned or panicked behind the last of them.
pub attempts_end :
    (h : List VersionAnswer)
    → AreAnswers h (trying 1 beginning)
    → (length h ≤ 4 * max_attempts)
      × (length h ≡ 4 * max_attempts
          → (a : VersionAnswer) → is_answer a (attempt_all h (trying 1 beginning)) ≡ false)
attempts_end h all = (
  omega (arith, answers_left h (trying 1 beginning) all),
  λ full a.
      let b = attempt_all h (trying 1 beginning) in
      ground (arith, answers_left h (trying 1 beginning) all, attempt_seat-calls_left a b),
)
