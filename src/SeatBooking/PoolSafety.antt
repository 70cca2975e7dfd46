-- ===== src/SeatBooking/PoolSafety.antt =====
-- relational-db/exclusive-locks/db/db.go: no schedule loses, doubles or runs out of connections.
use design_pocs.Common.{
  ℕ, suc, ◌+◌, ◌-◌, ◌≡◌, ◌≢◌, ◌⊎◌, inl, inr, refl, ap, Bool, true, false, Bool-cases, List, [], ◌∷◌,
  arith, length, ltb, ◌==◌, if◌then◌else◌,
}
use design_pocs.SeatBooking.Pool.{
  Pool, new_pool, Event, receive, pop, send, push, next, blocked, panics, give_back, pop_from, step,
  run,
}

abbrev pub holds : ℕ → List ℕ → Bool
holds c [] = false
holds c (x ∷ xs) = let rest = holds c xs in if x == c then true else rest

-- How often a connection stands in a list.
abbrev pub count : ℕ → List ℕ → ℕ
count c [] = 0
count c (x ∷ xs) = let rest = count c xs in if x == c then suc rest else rest

-- The pool has a connection for every value in the channel and every goroutine between the two halves of
-- Get or Put, the connections in it and out of it are as many as it began with, and each is there as often.
abbrev pub Inv : (ℕ → ℕ) → Pool → Type 0
Inv total p =
    (length p.conns ≡ p.channel + p.getting + p.putting)
    × (length p.conns + length p.held ≡ p.max_conn)
    × ((c : ℕ) → count c p.conns + count c p.held ≡ total c)

give_back-length :
    (c : ℕ) (xs : List ℕ) → holds c xs ≡ true → suc (length (give_back c xs)) ≡ length xs
give_back-length c [] h = cc
give_back-length c (x ∷ xs) h = ground (arith, give_back-length c xs)

give_back-count :
    (c d : ℕ) (xs : List ℕ)
    → holds c xs ≡ true
    → count d (give_back c xs) + (if c == d then 1 else 0) ≡ count d xs
give_back-count c d [] h = cc
give_back-count c d (x ∷ xs) h = ground (arith, give_back-count c d xs)

nonempty : (xs : List ℕ) → length xs ≢ 0 → (c : ℕ) × (rest : List ℕ) × (xs ≡ c ∷ rest)
nonempty [] h = absurd (h refl)
nonempty (c ∷ rest) h = (c, rest, refl)

-- Put is called with a connection that is out, as bookSeat does.
abbrev pub IsOwn : Event → Pool → Type 0
IsOwn (push c) p = holds c p.held ≡ true
IsOwn e p = Unit {0}

unfoldable pub AllOwn : List Event → Pool → Type 0
AllOwn [] p = Unit {0}
AllOwn (e ∷ es) p =
    IsOwn e p
    × (elim (step e p) [ next p' ↦ AllOwn es p' | blocked ↦ AllOwn es p | panics ↦ Unit {0} ])

-- Every step is taken or blocked, and keeps the invariant.
pub step-Inv :
    (total : ℕ → ℕ) (e : Event) (p : Pool)
    → IsOwn e p
    → Inv total p
    → ((p' : Pool) × (step e p ≡ next p') × Inv total p') ⊎ (step e p ≡ blocked)
unfolding step pop_from
step-Inv total receive p own (len, all, counts) = elim (Bool-cases (p.channel == 0)) [
  | inl none_left ↦ inr (rw none_left)
  | inr some_left ↦ inl (
    record p { channel = p.channel - 1; getting = p.getting + 1 },
    rw some_left,
    (ground arith, all, counts),
  )
]
step-Inv total pop p own (len, all, counts) = elim (Bool-cases (p.getting == 0)) [
  | inl nobody ↦ inr (rw nobody)
  | inr somebody ↦
      let (c, rest, e) = nonempty p.conns (ground arith) in
      let same_length = ap length e in
      inl (
        record p { getting = p.getting - 1; conns = rest; held = c ∷ p.held },
        rw somebody (ap (pop_from p) e),
        (ground arith, omega arith, λ d. ground (arith, counts d, ap (count d) e)),
      )
]
step-Inv total (push c) p out (len, all, counts) = inl (
  record p { conns = c ∷ p.conns; held = give_back c p.held; putting = p.putting + 1 },
  refl,
  (
    omega arith,
    omega (arith, give_back-length c p.held out),
    λ d. ground (arith, counts d, give_back-count c d p.held out),
  ),
)
step-Inv total send p own (len, all, counts) = elim (Bool-cases (p.putting == 0)) [
  | inl nobody ↦ inr (rw nobody)
  | inr somebody ↦
      let room : ltb p.channel p.max_conn ≡ true = ground arith in
      inl (
        record p { channel = p.channel + 1; putting = p.putting - 1 },
        rw somebody (rw room),
        (ground arith, all, counts),
      )
]

run-Inv :
    (total : ℕ → ℕ) (es : List Event) (p : Pool)
    → AllOwn es p
    → Inv total p
    → (p' : Pool) × (run es p ≡ next p') × Inv total p'
unfolding run AllOwn
run-Inv total [] p own inv = (p, refl, inv)
run-Inv total (e ∷ es) p (own, later) inv = elim (step-Inv total e p own inv) [
  | inl (q, taken, inv') ↦
      let (p', done, inv'') = run-Inv total es q (rw taken at later) inv' in
      (p', rw (taken, run) done, inv'')
  | inr waits ↦
      let (p', done, inv'') = run-Inv total es p (rw waits at later) inv in
      (p', rw (waits, run) done, inv'')
]

-- No schedule of Get and Put steps on a new pool, in which Put is called with connections that are out, panics
-- on an empty slice; behind it every connection is in
-- the pool or out of it as often as at the beginning, and a Put that has pushed its connection can go on.
pub run_safe :
    (ids : List ℕ) (es : List Event)
    → AllOwn es (new_pool ids)
    → (p : Pool) × (run es (new_pool ids) ≡ next p)
      × ((c : ℕ) → count c p.conns + count c p.held ≡ count c ids)
      × (p.putting ≢ 0 → step send p ≢ blocked)
unfolding step
run_safe ids es own =
    let (p, done, (len, all, counts)) =
      run-Inv (λ c. count c ids) es (new_pool ids) own
        (omega arith, omega arith, λ c. omega arith) in
    (
      p,
      done,
      counts,
      λ somebody.
          let busy : (p.putting == 0) ≡ false = ground arith in
          let room : ltb p.channel p.max_conn ≡ true = ground arith in
          rw busy (rw room (ground arith)),
    )
