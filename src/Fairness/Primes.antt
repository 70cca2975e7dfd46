-- ===== src/Fairness/Primes.antt =====
-- concurrency-examples/fairness/main.go: isPrime.
use design_pocs.Common.{
  ℕ, zero, suc, ◌+◌, ◌*◌, ◌/◌, ◌%◌, ◌≤◌, ◌<◌, ◌≡◌, ◌≢◌, ◌⊎◌, inl, inr, refl, ap, sym, ◌∙◌, Bool,
  true, false, Bool-cases, Option, none, some, arith, leb, ◌==◌, if◌then◌else◌,
}

sq_mono : (i d : ℕ) → i ≤ d → i * i ≤ d * d
sq_mono i d h = grind arith

le_sq : (i : ℕ) → i ≤ i * i
le_sq i = grind arith

divides : (n d : ℕ) → n % d ≡ 0 → n ≡ d * (n / d)
divides n d h = grind arith

times_mod : (d q : ℕ) → 0 < q → (d * q) % q ≡ 0
times_mod d q h = grind arith

smaller_factor : (d q : ℕ) → d ≤ q → d * d ≤ d * q
smaller_factor d q h = grind arith

-- The loop of isPrime, on fuel; `none` stands for too little fuel.
unfoldable pub prime_loop : ℕ → ℕ → ℕ → Option Bool
prime_loop zero n i = if leb (i * i) n then none else some true
prime_loop (suc fuel) n i =
    let rest = prime_loop fuel n (i + 1) in
    if leb (i * i) n then (if n % i == 0 then some false else rest) else some true

-- isPrime on a number that is not negative: the loop ends at the latest when i passes n.
unfoldable pub is_prime : ℕ → Option Bool
is_prime n = let loop = prime_loop n n 3 in if n % 2 == 0 then some false else loop

-- No number from `i` on whose square is at most `n` divides it.
abbrev NoneFrom : ℕ → ℕ → Type 0
NoneFrom n i = (d : ℕ) → i ≤ d → d * d ≤ n → n % d ≢ 0

abbrev LoopResult : ℕ → ℕ → Option Bool → Type 0
LoopResult n i r =
    ((r ≡ some true) × NoneFrom n i)
    ⊎ ((r ≡ some false) × (d : ℕ) × (i ≤ d) × (d * d ≤ n) × (n % d ≡ 0))

past_root : (n i : ℕ) → n < i * i → NoneFrom n i
past_root n i h d hd square = let up = sq_mono i d hd in absurd (omega arith)

prime_loop-LoopResult : (fuel n i : ℕ) → n < i + fuel → LoopResult n i (prime_loop fuel n i)
unfolding prime_loop
prime_loop-LoopResult zero n i h =
    let low = le_sq i in
    let over : leb (i * i) n ≡ false = ground arith in
    rw over (inl (refl, past_root n i (omega arith)))
prime_loop-LoopResult (suc fuel) n i h = elim (Bool-cases (leb (i * i) n)) [
  | inr over ↦ rw over (inl (refl, past_root n i (ground arith)))
  | inl under ↦
      rw (under, prime_loop)
        (elim (Bool-cases (n % i == 0)) [
          | inl factor ↦
              rw (factor, prime_loop) (inr (refl, i, (omega arith), (ground arith), (ground arith)))
          | inr other ↦
              rw (other, prime_loop)
                (elim (prime_loop-LoopResult fuel n (i + 1) (omega arith)) [
                  | inr (e, d, low, square, factor) ↦ inr (e, d, (omega arith), square, factor)
                  | inl (e, later) ↦ inl (
                    e,
                    λ d low square factor. elim (Bool-cases (i == d)) [
                      | inl same ↦ ground arith
                      | inr above ↦ later d (ground arith) square factor
                    ],
                  )
                ])
        ])
]

-- No number between 1 and `n` divides it.
abbrev pub IsPrime : ℕ → Type 0
IsPrime n = (d : ℕ) → 2 ≤ d → d < n → n % d ≢ 0

odd_factor : (n d : ℕ) → n % 2 ≢ 0 → n % d ≡ 0 → d ≢ 2
odd_factor n d odd e two = odd (ap (λ k. n % k) (sym two) ∙ e)

big_quotient : (n d q : ℕ) → n ≡ d * q → d < n → 2 ≤ q
big_quotient n d zero e h = grind arith
big_quotient n d (suc zero) e h = grind arith
big_quotient n d (suc (suc q)) e h = omega arith

below_square : (d n : ℕ) → 3 ≤ d → d * d ≤ n → d < n
below_square d n h square = let triple = smaller_factor 3 d h in grind arith

-- An odd number with a divisor has one whose square is no greater.
none-IsPrime : (n : ℕ) → n % 2 ≢ 0 → NoneFrom n 3 → IsPrime n
none-IsPrime n odd none_from d low high factor =
    let q = n / d in
    let product : n ≡ d * q = divides n d factor in
    let cofactor : n % q ≡ 0 =
      ap (λ k. k % q) product ∙ times_mod d q (omega (arith, big_quotient n d q product high)) in
    let d_odd = odd_factor n d odd factor in
    let q_odd = odd_factor n q odd cofactor in
    let q_low = big_quotient n d q product high in
    elim (Bool-cases (leb d q)) [
      | inl small ↦
          let square = smaller_factor d q (ground arith) in
          none_from d (omega arith) (omega (arith, product)) factor
      | inr large ↦
          let square = smaller_factor q d (ground arith) in
          let swap : q * d ≡ d * q = grind arith in none_from q (omega arith) (omega arith) cofactor
    ]

-- From 3 on isPrime ends, with true on a prime and with false on a number that has a divisor.
pub is_prime_decides :
    (n : ℕ)
    → 3 ≤ n
    → ((is_prime n ≡ some true) × IsPrime n)
      ⊎ ((is_prime n ≡ some false) × (d : ℕ) × (2 ≤ d) × (d < n) × (n % d ≡ 0))
unfolding is_prime
is_prime_decides n h = elim (Bool-cases (n % 2 == 0)) [
  | inl even ↦ rw (even, is_prime) (inr (refl, 2, omega arith, omega arith, ground arith))
  | inr odd ↦
      rw (odd, is_prime)
        (elim (prime_loop-LoopResult n n 3 (omega arith)) [
          | inl (e, none_from) ↦ inl (e, none-IsPrime n (ground arith) none_from)
          | inr (e, d, low, square, factor) ↦
              inr (e, d, omega arith, below_square d n low square, factor)
        ])
]
