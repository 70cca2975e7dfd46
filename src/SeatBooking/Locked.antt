-- ===== src/SeatBooking/Locked.antt =====
-- relational-db/exclusive-locks/update/booking.go and updateskip/booking.go: with a SELECT that locks its
-- row no seat is given away twice, and noupdate/booking.go: without one a seat is.
use design_pocs.Common.{
  ℕ, ◌≡◌, ◌≢◌, ◌⊎◌, inl, refl, Bool, true, false, Option, none, some, List, [], ◌∷◌, arith, ◌==◌,
  ==_refl,
}
use design_pocs.SeatBooking.Bookings.{
  row, Answer, to_begin, to_select, to_update, to_commit, Booking, waiting, begun, chosen, updating,
  booked, failed, book_seat, Booker, changed_after, seats_after, answer, answer_all, everyone_waits,
}

-- A transaction between the answer of SELECT and that of COMMIT has locked the row.
abbrev pub locks : ℕ → Booking → Bool
locks i waiting = false
locks i begun = false
locks i (chosen j) = j == i
locks i (updating j) = j == i
locks i (booked j) = false
locks i (failed e) = false

-- SELECT ... FOR UPDATE answers with a row whose user_id is NULL and that no other transaction has locked.
abbrev pub IsLockedRead : ℕ → Answer → Booker → Type 0
IsLockedRead u a s =
    (i : ℕ)
    → a ≡ to_select (row i)
    → (s.seats i ≡ none) × ((v : ℕ) → v ≢ u → locks i (s.users v) ≡ false)

abbrev pub IsLocked : List (ℕ × Answer) → Booker → Type 0
IsLocked [] s = Unit {0}
IsLocked ((u, a) ∷ h) s = IsLockedRead u a s × IsLocked h (answer u a s)

-- Before COMMIT the transaction has changed the seat that it is to book.
abbrev pub IsPending : Booking → Option ℕ → Type 0
IsPending b change = (i : ℕ) → b ≡ updating i → change ≡ some i

-- A step locks no row but the one that it has read.
book-locks :
    (a : Answer) (b : Booking) (i : ℕ)
    → locks i (book_seat a b) ≡ true
    → (locks i b ≡ true) ⊎ (a ≡ to_select (row i))
unfolding book_seat
book-locks a b i h = ground arith

book-booked :
    (a : Answer) (b : Booking) (i : ℕ)
    → book_seat a b ≡ booked i
    → (b ≡ booked i) ⊎ ((b ≡ updating i) × (a ≡ to_commit true))
unfolding book_seat
book-booked a b i h = ground arith

-- A seat changes hands at a COMMIT only.
seats_after-cases :
    (u : ℕ) (a : Answer) (b : Booking) (change : Option ℕ) (seats : ℕ → Option ℕ) (i : ℕ)
    → IsPending b change
    → (seats_after u a b change seats i ≡ seats i)
      ⊎ ((a ≡ to_commit true) × (b ≡ updating i) × (seats_after u a b change seats i ≡ some u))
unfolding seats_after
seats_after-cases u (to_begin _) b change seats i pending = inl refl
seats_after-cases u (to_select _) b change seats i pending = inl refl
seats_after-cases u (to_update _) b change seats i pending = inl refl
seats_after-cases u (to_commit false) b change seats i pending = inl refl
seats_after-cases u (to_commit true) (updating j) change seats i pending =
    rw (pending j refl) (ground arith)
seats_after-cases u (to_commit true) waiting change seats i pending = inl refl
seats_after-cases u (to_commit true) begun change seats i pending = inl refl
seats_after-cases u (to_commit true) (chosen _) change seats i pending = inl refl
seats_after-cases u (to_commit true) (booked _) change seats i pending = inl refl
seats_after-cases u (to_commit true) (failed _) change seats i pending = inl refl

-- A COMMIT of what UPDATE has changed.
seats_after-commit :
    (u : ℕ) (b : Booking) (change : Option ℕ) (seats : ℕ → Option ℕ) (i : ℕ)
    → IsPending b change
    → b ≡ updating i
    → seats_after u (to_commit true) b change seats i ≡ some u
unfolding seats_after
seats_after-commit u b change seats i pending h = ground (arith, pending i, ==_refl i)

changed_after-IsPending :
    (a : Answer) (b : Booking) (change : Option ℕ)
    → IsPending b change
    → IsPending (book_seat a b) (changed_after a b change)
unfolding book_seat changed_after
changed_after-IsPending a b change pending i h = ground (arith, pending i)

book-commit : (b : Booking) (i : ℕ) → b ≡ updating i → book_seat (to_commit true) b ≡ booked i
unfolding book_seat
book-commit b i h = ground arith

-- The row that a goroutine locks is free, the seat that it booked is its own, and no row is locked twice.
abbrev pub Inv : Booker → Type 0
Inv s =
    ((u i : ℕ) → locks i (s.users u) ≡ true → s.seats i ≡ none)
    × ((u i : ℕ) → s.users u ≡ booked i → s.seats i ≡ some u)
    × ((u v i : ℕ) → locks i (s.users u) ≡ true → locks i (s.users v) ≡ true → u ≡ v)
    × ((u : ℕ) → IsPending (s.users u) (s.changed u))

answer-Inv : (u : ℕ) (a : Answer) (s : Booker) → IsLockedRead u a s → Inv s → Inv (answer u a s)
unfolding answer
answer-Inv u a s read (free, taken, apart, pending) = (
  λ v i h. ground (
    arith,
    book-locks a (s.users u) i,
    seats_after-cases u a (s.users u) (s.changed u) s.seats i (pending u),
    book-commit (s.users u) i,
    free u i,
    free v i,
    apart u v i,
    read i,
  ),
  λ v i h. ground (
    arith,
    book-booked a (s.users u) i,
    seats_after-commit u (s.users u) (s.changed u) s.seats i (pending u),
    seats_after-cases u a (s.users u) (s.changed u) s.seats i (pending u),
    taken u i,
    taken v i,
    free u i,
  ),
  λ v w i h k.
      let other : (x : ℕ) → a ≡ to_select (row i) → x ≢ u → locks i (s.users x) ≡ false =
        λ x e. (read i e).1 x in
      ground (
        arith,
        book-locks a (s.users u) i,
        apart v w i,
        apart u w i,
        apart v u i,
        other v,
        other w,
      ),
  λ v i h.
      ground
        (arith, changed_after-IsPending a (s.users u) (s.changed u) (pending u) i, pending v i),
)

answer_all-Inv : (h : List (ℕ × Answer)) (s : Booker) → IsLocked h s → Inv s → Inv (answer_all h s)
unfolding answer_all
answer_all-Inv [] s legal inv = inv
answer_all-Inv ((u, a) ∷ h) s (read, legal) inv =
    answer_all-Inv h (answer u a s) legal (answer-Inv u a s read inv)

-- In any order of the database's answers in which every SELECT reads a row that is free and that no other
-- transaction has locked, a seat that bookSeat reports as booked is committed to its user at the end, and
-- no other user is told so.
pub booked_once :
    (h : List (ℕ × Answer)) (seats : ℕ → Option ℕ) (u i : ℕ)
    → IsLocked h (everyone_waits seats)
    → (answer_all h (everyone_waits seats)).users u ≡ booked i
    → ((answer_all h (everyone_waits seats)).seats i ≡ some u)
      × ((v : ℕ) → (answer_all h (everyone_waits seats)).users v ≡ booked i → v ≡ u)
booked_once h seats u i legal told =
    let s = answer_all h (everyone_waits seats) in
    let (free, taken, apart, pending) = answer_all-Inv h (everyone_waits seats) legal (
      λ v j k. ground arith,
      λ v j k. ground arith,
      λ v w j k l. ground arith,
      λ v j k. ground arith,
    ) in
    (taken u i told, λ v told_too. ground (arith, taken u i, taken v i))
