-- ===== src/SeatBooking/BookingTests.antt =====
-- Histories of bookings, and each theorem at an input.
use design_pocs.Common.{
  ℕ, zero, suc, ◌*◌, ◌≤◌, ◌≡◌, refl, arith, true, false, Option, none, some, List, [], ◌∷◌, length,
}
use design_pocs.SeatBooking.Bookings.{
  row, affected, Answer, to_begin, to_select, to_update, to_commit, booked, book_seat,
  changed_after, seats_after, answer, answer_all, everyone_waits,
}
use design_pocs.SeatBooking.Locked.{IsLocked, booked_once}
use design_pocs.SeatBooking.Unlocked.{IsUnlocked, race, race_books_twice}
use design_pocs.SeatBooking.Optimistic.{
  VersionAnswer, tx_begun, tx_error, tx_row, tx_updated, tx_committed, beginning, trying, got_seat,
  attempt_seat, next_attempt, attempt_result, returned_nil, owners_after, versions_after,
  answer_attempt, answer_attempts, everyone_begins, max_attempts,
}
use design_pocs.SeatBooking.Versioned.{AllChecked, versioned_once}
use design_pocs.SeatBooking.Attempts.{is_answer, AreAnswers, attempt_all, attempts_end}

abbrev all_free : ℕ → Option ℕ
all_free i = none

abbrev first_version : ℕ → ℕ
first_version i = 1

-- The second user reads while the first one has locked seat 5, and is given seat 6.
abbrev locked_history : List (ℕ × Answer)
locked_history =
    (1, to_begin true)
    ∷ (2, to_begin true)
    ∷ (1, to_select (row 5))
    ∷ (2, to_select (row 6))
    ∷ (1, to_update (affected 1))
    ∷ (1, to_commit true)
    ∷ []

locked_history-IsLocked : IsLocked locked_history (everyone_waits all_free)
unfolding answer book_seat changed_after seats_after
locked_history-IsLocked = (
  λ i e. ground arith,
  (
    λ i e. ground arith,
    (
      λ i e. (refl, λ v d. ground arith),
      (λ i e. (refl, λ v d. ground arith), (λ i e. ground arith, (λ i e. ground arith, tt))),
    ),
  ),
)

first_is_told : (answer_all locked_history (everyone_waits all_free)).users 1 ≡ booked 5
unfolding answer_all answer book_seat
first_is_told = refl

booked_once_example :
    ((answer_all locked_history (everyone_waits all_free)).seats 5 ≡ some 1)
    × ((v : ℕ) → (answer_all locked_history (everyone_waits all_free)).users v ≡ booked 5 → v ≡ 1)
booked_once_example = booked_once locked_history all_free 1 5 locked_history-IsLocked first_is_told

race_books_twice_example :
    IsUnlocked (race 1 2 5) (everyone_waits all_free)
    × ((answer_all (race 1 2 5) (everyone_waits all_free)).users 1 ≡ booked 5)
    × ((answer_all (race 1 2 5) (everyone_waits all_free)).users 2 ≡ booked 5)
    × ((answer_all (race 1 2 5) (everyone_waits all_free)).seats 5 ≡ some 2)
race_books_twice_example = race_books_twice 1 2 5 all_free (ground arith) refl

-- Both users read seat 5; the second one's UPDATE finds a newer version and changes nothing.
abbrev checked_history : List (ℕ × VersionAnswer)
checked_history =
    (1, tx_begun true)
    ∷ (2, tx_begun true)
    ∷ (1, tx_row 5 1)
    ∷ (2, tx_row 5 1)
    ∷ (1, tx_updated (affected 1))
    ∷ (1, tx_committed true)
    ∷ (2, tx_updated (affected 0))
    ∷ []

checked_history-AllChecked : AllChecked checked_history (everyone_begins all_free first_version)
unfolding answer_attempt attempt_seat owners_after versions_after next_attempt
checked_history-AllChecked = (
  (λ i w e. ground arith, λ i w e f. ground arith),
  (
    (λ i w e. ground arith, λ i w e f. ground arith),
    (
      (λ i w e. (refl, ground arith), λ i w e f. ground arith),
      (
        (λ i w e. (refl, ground arith), λ i w e f. ground arith),
        (
          (λ i w e. ground arith, λ i w e f. (ground arith, λ v x d. ground arith)),
          (
            (λ i w e. ground arith, λ i w e f. ground arith),
            ((λ i w e. ground arith, λ i w e f. ground arith), tt),
          ),
        ),
      ),
    ),
  ),
)

first_has_seat :
    (answer_attempts checked_history (everyone_begins all_free first_version)).attempts 1
    ≡ got_seat 5 1
unfolding answer_attempts answer_attempt attempt_seat next_attempt
first_has_seat = refl

second_tries_again :
    (answer_attempts checked_history (everyone_begins all_free first_version)).attempts 2
    ≡ trying 2 beginning
unfolding answer_attempts answer_attempt attempt_seat next_attempt
second_tries_again = refl

versioned_once_example :
    ((answer_attempts checked_history (everyone_begins all_free first_version)).owners 5 ≡ some 1)
    × ((v x : ℕ)
        → (answer_attempts checked_history (everyone_begins all_free first_version)).attempts v
          ≡ got_seat 5 x
        → v ≡ 1)
versioned_once_example =
    versioned_once checked_history all_free first_version 1 5 1 checked_history-AllChecked
      first_has_seat

-- No attempt of these finds a free seat.
abbrev failing : ℕ → List VersionAnswer
failing zero = []
failing (suc n) = tx_begun true ∷ tx_error ∷ failing n

-- bookSeat returns nil without a seat.
fails_silently : attempt_result (attempt_all (failing 50) (trying 1 beginning)) ≡ returned_nil
unfolding attempt_result attempt_seat next_attempt
fails_silently = refl

abbrev lucky : List VersionAnswer
lucky =
    tx_begun true
    ∷ tx_error
    ∷ tx_begun true
    ∷ tx_row 5 1
    ∷ tx_updated (affected 1)
    ∷ tx_committed true
    ∷ []

lucky-AreAnswers : AreAnswers lucky (trying 1 beginning)
unfolding attempt_seat next_attempt
lucky-AreAnswers = (refl, (refl, (refl, (refl, (refl, (refl, tt))))))

attempts_end_example :
    (length lucky ≤ 4 * max_attempts)
    × (length lucky ≡ 4 * max_attempts
        → (a : VersionAnswer) → is_answer a (attempt_all lucky (trying 1 beginning)) ≡ false)
attempts_end_example = attempts_end lucky lucky-AreAnswers
