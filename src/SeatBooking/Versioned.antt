-- ===== src/SeatBooking/Versioned.antt =====
-- relational-db/exclusive-locks/optimisticlock/booking.go: the check of the version gives no seat away
-- twice.
use design_pocs.Common.{
  ℕ, suc, ◌+◌, ◌≤◌, ◌≡◌, ◌≢◌, ◌⊎◌, Bool, true, ◌&&◌, false, Option, none, some, List, [], ◌∷◌,
  arith, ◌==◌,
}
use design_pocs.SeatBooking.Bookings.{affected}
use design_pocs.SeatBooking.Optimistic.{
  VersionAnswer, tx_row, tx_updated, tx_committed, writing, committing, Attempt, trying, got_seat,
  next_attempt, attempt_seat, Versions, owners_after, versions_after, answer_attempt,
  answer_attempts, everyone_begins,
}

abbrev pub is_writing : ℕ → ℕ → Attempt → Bool
is_writing i w (trying j (writing k x)) = (k == i) && (x == w)
is_writing i w b = false

abbrev pub is_committing : ℕ → ℕ → Attempt → Bool
is_committing i w (trying j (committing k x)) = (k == i) && (x == w)
is_committing i w b = false

abbrev pub version_of : Attempt → ℕ
version_of (trying j (committing k x)) = x
version_of b = 0

-- UPDATE has changed a row.
abbrev pub has_changed : VersionAnswer → Bool
has_changed (tx_updated (affected (suc n))) = true
has_changed a = false

-- SELECT reads a committed row whose user_id is NULL. UPDATE changes a row only when its version is the
-- one that was read, and no other transaction has changed the row and not ended.
abbrev pub IsChecked : ℕ → VersionAnswer → Versions → Type 0
IsChecked u a s =
    ((i w : ℕ) → a ≡ tx_row i w → (s.owners i ≡ none) × (s.versions i ≡ w))
    × ((i w : ℕ)
        → has_changed a ≡ true
        → is_writing i w (s.attempts u) ≡ true
        → (s.versions i ≡ w) × ((v x : ℕ) → v ≢ u → is_committing i x (s.attempts v) ≡ false))

abbrev pub AllChecked : List (ℕ × VersionAnswer) → Versions → Type 0
AllChecked [] s = Unit {0}
AllChecked ((u, a) ∷ h) s = IsChecked u a s × AllChecked h (answer_attempt u a s)

attempt-is_writing :
    (a : VersionAnswer) (b : Attempt) (i w : ℕ)
    → is_writing i w (attempt_seat a b) ≡ true
    → (is_writing i w b ≡ true) ⊎ (a ≡ tx_row i w)
unfolding attempt_seat next_attempt
attempt-is_writing a b i w h = ground arith

attempt-is_committing :
    (a : VersionAnswer) (b : Attempt) (i w : ℕ)
    → is_committing i w (attempt_seat a b) ≡ true
    → (is_committing i w b ≡ true) ⊎ ((has_changed a ≡ true) × (is_writing i w b ≡ true))
unfolding attempt_seat next_attempt
attempt-is_committing a b i w h = ground arith

attempt-got_seat :
    (a : VersionAnswer) (b : Attempt) (i w : ℕ)
    → attempt_seat a b ≡ got_seat i w
    → (b ≡ got_seat i w) ⊎ ((a ≡ tx_committed true) × (is_committing i w b ≡ true))
unfolding attempt_seat next_attempt
attempt-got_seat a b i w h = ground arith

-- A row changes at a COMMIT only, which ends its attempt.
changes-cases :
    (u : ℕ) (a : VersionAnswer) (b : Attempt) (owners : ℕ → Option ℕ) (versions : ℕ → ℕ) (i : ℕ)
    → ((owners_after u a b owners i ≡ owners i) × (versions_after a b versions i ≡ versions i))
      ⊎ ((a ≡ tx_committed true)
          × (is_committing i (version_of b) b ≡ true)
          × (owners_after u a b owners i ≡ some u)
          × (versions_after a b versions i ≡ versions i + 1))
unfolding owners_after versions_after
changes-cases u a b owners versions i = ground arith

committed-ends :
    (b : Attempt) (i w k x : ℕ)
    → is_committing i w b ≡ true
    → is_committing k x (attempt_seat (tx_committed true) b) ≡ false
unfolding attempt_seat
committed-ends b i w k x h = ground arith

committed-owns :
    (u : ℕ) (b : Attempt) (owners : ℕ → Option ℕ) (i w : ℕ)
    → is_committing i w b ≡ true
    → owners_after u (tx_committed true) b owners i ≡ some u
unfolding owners_after
committed-owns u b owners i w h = ground arith

-- A goroutine that has read a row knows its version at that time, and the row is free while it has that
-- version; a row that is being written is free and has the version that was read; a seat that is taken
-- is its user's; and no row is written twice.
abbrev pub Inv : Versions → Type 0
Inv s =
    ((u i w : ℕ)
      → is_writing i w (s.attempts u) ≡ true
      → (w ≤ s.versions i) × (s.versions i ≡ w → s.owners i ≡ none))
    × ((u i w : ℕ)
        → is_committing i w (s.attempts u) ≡ true
        → (s.owners i ≡ none) × (s.versions i ≡ w))
    × ((u i w : ℕ) → s.attempts u ≡ got_seat i w → s.owners i ≡ some u)
    × ((u v i w x : ℕ)
        → is_committing i w (s.attempts u) ≡ true
        → is_committing i x (s.attempts v) ≡ true
        → u ≡ v)

answer_attempt-Inv :
    (u : ℕ) (a : VersionAnswer) (s : Versions)
    → IsChecked u a s
    → Inv s
    → Inv (answer_attempt u a s)
unfolding answer_attempt
answer_attempt-Inv u a s (read, changed) (known, free, taken, apart) =
    let b = s.attempts u in
    (
      λ v i w h.
          let seat = changes-cases u a b s.owners s.versions i in
          (
            ground (arith, attempt-is_writing a b i w, seat, known u i w, known v i w, read i w),
            λ e. ground (
              arith,
              attempt-is_writing a b i w,
              seat,
              known u i w,
              known v i w,
              read i w,
              free u i (version_of b),
            ),
          ),
      λ v i w h.
          let same : has_changed a ≡ true → is_writing i w b ≡ true → s.versions i ≡ w =
            λ e f. (changed i w e f).0 in
          ground (
            arith,
            attempt-is_committing a b i w,
            changes-cases u a b s.owners s.versions i,
            free u i w,
            free v i w,
            known u i w,
            same,
            committed-ends b i (version_of b) i w,
            apart u v i (version_of b) w,
          ),
      λ v i w h. ground (
        arith,
        attempt-got_seat a b i w,
        changes-cases u a b s.owners s.versions i,
        taken u i w,
        taken v i w,
        free u i (version_of b),
        committed-owns u b s.owners i w,
      ),
      λ v z i w x h k.
          let other : (y t r : ℕ)
              → has_changed a ≡ true
              → is_writing i t b ≡ true
              → y ≢ u
              → is_committing i r (s.attempts y) ≡ false =
            λ y t r e f d. (changed i t e f).1 y r d in
          ground (
            arith,
            attempt-is_committing a b i w,
            attempt-is_committing a b i x,
            apart v z i w x,
            apart u z i w x,
            apart v u i w x,
            other v x w,
            other z w x,
          ),
    )

answer_attempts-Inv :
    (h : List (ℕ × VersionAnswer)) (s : Versions)
    → AllChecked h s
    → Inv s
    → Inv (answer_attempts h s)
unfolding answer_attempts
answer_attempts-Inv [] s legal inv = inv
answer_attempts-Inv ((u, a) ∷ h) s (checked, legal) inv =
    answer_attempts-Inv h (answer_attempt u a s) legal (answer_attempt-Inv u a s checked inv)

-- In any order of the database's answers in which SELECT reads free rows as they are committed, and UPDATE
-- changes a row only with the version that was read and while no other transaction has changed it, a
-- seat that bookSeat has booked is committed to its user at the end, and no other user has booked it.
pub versioned_once :
    (h : List (ℕ × VersionAnswer)) (owners : ℕ → Option ℕ) (versions : ℕ → ℕ) (u i w : ℕ)
    → AllChecked h (everyone_begins owners versions)
    → (answer_attempts h (everyone_begins owners versions)).attempts u ≡ got_seat i w
    → ((answer_attempts h (everyone_begins owners versions)).owners i ≡ some u)
      × ((v x : ℕ)
          → (answer_attempts h (everyone_begins owners versions)).attempts v ≡ got_seat i x
          → v ≡ u)
versioned_once h owners versions u i w legal told =
    let s = everyone_begins owners versions in
    let (known, free, taken, apart) = answer_attempts-Inv h s legal (
      λ v j x k. ground arith,
      λ v j x k. ground arith,
      λ v j x k. ground arith,
      λ v z j x y k l. ground arith,
    ) in
    (taken u i w told, λ v x told_too. ground (arith, taken u i w, taken v i x))
