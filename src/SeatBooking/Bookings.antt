-- ===== src/SeatBooking/Bookings.antt =====
-- relational-db/exclusive-locks/noupdate/booking.go, update/booking.go and updateskip/booking.go: bookSeat
-- of a goroutine, as a machine that takes the database's answers, and several of them on one table.
-- The three differ in the text of their SELECT only.
use design_pocs.Common.{
  ℕ, zero, suc, Bool, true, false, Option, none, some, List, [], ◌∷◌, ◌==◌, if◌then◌else◌, Bytes,
  codes,
}

abbrev pub noupdate_select : Bytes
noupdate_select = codes "SELECT id, number, user_id FROM seats WHERE user_id IS NULL LIMIT 1"

abbrev pub update_select : Bytes
update_select =
    codes "SELECT id, number, user_id FROM seats WHERE user_id IS NULL LIMIT 1 FOR UPDATE"

abbrev pub updateskip_select : Bytes
updateskip_select =
    codes
      "SELECT id, number, user_id FROM seats WHERE user_id IS NULL LIMIT 1 FOR UPDATE SKIP LOCKED"

pub data Selected : Type 0 where
  no_rows select_error : Selected
  row : (seat : ℕ) → Selected

-- The answers of Exec and of RowsAffected.
pub data Updated : Type 0 where
  update_error count_error : Updated
  affected : ℕ → Updated

pub data Answer : Type 0 where
  to_begin : Bool → Answer
  to_select : Selected → Answer
  to_update : Updated → Answer
  to_commit : Bool → Answer

pub data Failure : Type 0 where
  not_begun no_seats not_selected : Failure
  not_updated not_counted not_affected not_committed : ℕ → Failure

-- Before Begin; before the answer of SELECT, of UPDATE and of COMMIT; and the two ways to return.
pub data Booking : Type 0 where
  waiting begun : Booking
  chosen updating booked : ℕ → Booking
  failed : Failure → Booking

abbrev pub counted : ℕ → ℕ → Booking
counted i zero = failed (not_affected i)
counted i (suc n) = updating i

-- An answer to a call that the goroutine has not made changes nothing. Each failure before COMMIT has
-- rolled back.
unfoldable pub book_seat : Answer → Booking → Booking
book_seat (to_begin true) waiting = begun
book_seat (to_begin false) waiting = failed not_begun
book_seat (to_select no_rows) begun = failed no_seats
book_seat (to_select select_error) begun = failed not_selected
book_seat (to_select (row i)) begun = chosen i
book_seat (to_update update_error) (chosen i) = failed (not_updated i)
book_seat (to_update count_error) (chosen i) = failed (not_counted i)
book_seat (to_update (affected n)) (chosen i) = counted i n
book_seat (to_commit true) (updating i) = booked i
book_seat (to_commit false) (updating i) = failed (not_committed i)
book_seat _ b = b

-- The goroutine of each user, the seat whose user_id its open transaction has changed, and the user_id of
-- each seat as it was committed last.
pub record Booker : Type 0 where
  pub users : ℕ → Booking
  pub changed : ℕ → Option ℕ
  pub seats : ℕ → Option ℕ

abbrev pub set {ℓ} : {A : Type ℓ} → ℕ → A → (ℕ → A) → ℕ → A
set i a f j = if j == i then a else f j

-- What the transaction has changed: the seat that UPDATE names, if it affects a row. COMMIT and ROLLBACK end
-- the transaction; UPDATE is followed by ROLLBACK where its error, or that of RowsAffected, is returned.
unfoldable pub changed_after : Answer → Booking → Option ℕ → Option ℕ
changed_after (to_update (affected (suc n))) (chosen i) change = some i
changed_after (to_commit ok) (updating i) change = none
changed_after _ b change = change

abbrev pub write_change : ℕ → Option ℕ → (ℕ → Option ℕ) → ℕ → Option ℕ
write_change u none seats = seats
write_change u (some i) seats = set i (some u) seats

-- COMMIT puts the user into the seat that the transaction has changed.
unfoldable pub seats_after : ℕ → Answer → Booking → Option ℕ → (ℕ → Option ℕ) → ℕ → Option ℕ
seats_after u (to_commit true) (updating i) change seats = write_change u change seats
seats_after u _ b change seats = seats

unfoldable pub answer : ℕ → Answer → Booker → Booker
unfolding book_seat changed_after seats_after
answer u a s = record {
  users = set u (book_seat a (s.users u)) s.users;
  changed = set u (changed_after a (s.users u) (s.changed u)) s.changed;
  seats = seats_after u a (s.users u) (s.changed u) s.seats;
}

unfoldable pub answer_all : List (ℕ × Answer) → Booker → Booker
unfolding answer
answer_all [] s = s
answer_all ((u, a) ∷ h) s = answer_all h (answer u a s)

-- BookSeats starts every goroutine before Begin.
abbrev pub everyone_waits : (ℕ → Option ℕ) → Booker
everyone_waits seats = record { users = λ u. waiting; changed = λ u. none; seats = seats }
