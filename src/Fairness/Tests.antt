-- ===== src/Fairness/Tests.antt =====
-- Runs of isPrime and of the workers, and each theorem at an input.
use design_pocs.Common.{ℕ, ◌≤◌, ◌<◌, ◌%◌, ◌≡◌, ◌≢◌, ◌⊎◌, refl, arith, true, false, some, [], ◌∷◌}
use design_pocs.Fairness.Primes.{is_prime, prime_loop, IsPrime, is_prime_decides}
use design_pocs.Fairness.Workers.{
  max_number, InBatch, batches_partition, start, round, rounds, numbers_to, rounds_share,
}

prime_97 : is_prime 97 ≡ some true
unfolding is_prime prime_loop
prime_97 = refl

-- 2 is prime, and isPrime counts it as even.
two_is_even : is_prime 2 ≡ some false
unfolding is_prime prime_loop
two_is_even = refl

is_prime_decides_example :
    ((is_prime 91 ≡ some true) × IsPrime 91)
    ⊎ ((is_prime 91 ≡ some false) × (d : ℕ) × (2 ≤ d) × (d < 91) × (91 % d ≡ 0))
is_prime_decides_example = is_prime_decides 91 (omega arith)

batches_partition_example :
    ((2 ≤ 450000001)
      × (450000001 < max_number)
      × (i : ℕ) × InBatch i 450000001
      × ((j : ℕ) → InBatch j 450000001 → j ≡ i))
    ⊎ (((450000001 < 2) ⊎ (max_number ≤ 450000001)) × ((j : ℕ) → InBatch j 450000001 → ⊥))
batches_partition_example = batches_partition 450000001

taken_by_three : (rounds (0 ∷ 2 ∷ 0 ∷ []) start).taken ≡ 4 ∷ 3 ∷ 2 ∷ []
unfolding rounds round
taken_by_three = refl

rounds_share_example :
    let s = rounds (0 ∷ 2 ∷ 0 ∷ []) start in
    (m : ℕ) × (m ≤ max_number) × (s.taken ≡ numbers_to m) × (s.ended ≢ [] → m ≡ max_number)
rounds_share_example = rounds_share (0 ∷ 2 ∷ 0 ∷ [])
