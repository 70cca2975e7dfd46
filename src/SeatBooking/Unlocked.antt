-- ===== src/SeatBooking/Unlocked.antt =====
-- relational-db/exclusive-locks/noupdate/booking.go: with a SELECT that locks nothing a seat is given away twice.
use design_pocs.Common.{
  ℕ, ◌≡◌, ◌≢◌, sym, Bool, true, Option, none, some, List, [], ◌∷◌, arith, ==_refl,
}
use design_pocs.SeatBooking.Bookings.{
  row, affected, Answer, to_begin, to_select, to_update, to_commit, Booking, updating, booked,
  book_seat, Booker, changed_after, seats_after, answer, answer_all, everyone_waits,
}

-- A SELECT without a lock answers with a row whose committed user_id is NULL; an UPDATE waits while
-- another transaction has changed its row.
abbrev pub IsPlainRead : ℕ → Answer → (ℕ → Booking) → (ℕ → Option ℕ) → Type 0
IsPlainRead u a users seats =
    ((i : ℕ) → a ≡ to_select (row i) → seats i ≡ none)
    × ((n i : ℕ)
        → a ≡ to_update (affected n)
        → users u ≡ Booking.chosen i
        → (v : ℕ) → v ≢ u
        → users v ≢ updating i)

abbrev pub IsUnlocked : List (ℕ × Answer) → Booker → Type 0
IsUnlocked [] s = Unit {0}
IsUnlocked ((u, a) ∷ h) s = IsPlainRead u a s.users s.seats × IsUnlocked h (answer u a s)

-- Both users read before either commits.
abbrev pub race : ℕ → ℕ → ℕ → List (ℕ × Answer)
race u v i =
    (u, to_begin true)
    ∷ (v, to_begin true)
    ∷ (u, to_select (row i))
    ∷ (v, to_select (row i))
    ∷ (u, to_update (affected 1))
    ∷ (u, to_commit true)
    ∷ (v, to_update (affected 1))
    ∷ (v, to_commit true)
    ∷ []

begin-IsPlainRead :
    (u : ℕ) (b : Bool) (users : ℕ → Booking) (seats : ℕ → Option ℕ)
    → IsPlainRead u (to_begin b) users seats
begin-IsPlainRead u b users seats = (λ i e. ground arith, λ n i e c. ground arith)

commit-IsPlainRead :
    (u : ℕ) (b : Bool) (users : ℕ → Booking) (seats : ℕ → Option ℕ)
    → IsPlainRead u (to_commit b) users seats
commit-IsPlainRead u b users seats = (λ i e. ground arith, λ n i e c. ground arith)

select-IsPlainRead :
    (u i : ℕ) (users : ℕ → Booking) (seats : ℕ → Option ℕ)
    → seats i ≡ none
    → IsPlainRead u (to_select (row i)) users seats
select-IsPlainRead u i users seats free =
    (λ j e. let same : i ≡ j = ground arith in rw (sym same) free, λ n j e c. ground arith)

update-IsPlainRead :
    (u i n : ℕ) (users : ℕ → Booking) (seats : ℕ → Option ℕ)
    → ((v : ℕ) → v ≢ u → users v ≢ updating i)
    → users u ≡ Booking.chosen i
    → IsPlainRead u (to_update (affected n)) users seats
update-IsPlainRead u i n users seats nobody mine = (
  λ j e. ground arith,
  λ m j e c v differ. let same : i ≡ j = ground arith in rw (sym same) (nobody v differ),
)

-- Two users that read a free seat before either commits are both told that they booked it, and the seat
-- is committed to the second; the database may answer so without a locking read.
pub race_books_twice :
    (u v i : ℕ) (seats : ℕ → Option ℕ)
    → u ≢ v
    → seats i ≡ none
    → (let s = answer_all (race u v i) (everyone_waits seats) in
        IsUnlocked (race u v i) (everyone_waits seats)
        × (s.users u ≡ booked i)
        × (s.users v ≡ booked i)
        × (s.seats i ≡ some v))
unfolding answer_all answer book_seat changed_after seats_after
race_books_twice u v i seats differ free = (
  (
    begin-IsPlainRead u true _ _,
    (
      begin-IsPlainRead v true _ _,
      (
        select-IsPlainRead u i _ _ free,
        (
          select-IsPlainRead v i _ _ free,
          (
            update-IsPlainRead u i 1 _ _ (λ w d e. ground (arith, ==_refl u, ==_refl v))
                (ground (arith, ==_refl u, ==_refl v)),
            (
              commit-IsPlainRead u true _ _,
              (
                update-IsPlainRead v i 1 _ _ (λ w d e. ground (arith, ==_refl u, ==_refl v))
                    (ground (arith, ==_refl u, ==_refl v)),
                (commit-IsPlainRead v true _ _, tt),
              ),
            ),
          ),
        ),
      ),
    ),
  ),
  ground (arith, ==_refl u, ==_refl v),
  ground (arith, ==_refl u, ==_refl v),
  ground (arith, ==_refl u, ==_refl v),
)
