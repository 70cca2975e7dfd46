-- ===== src/Fairness/Workers.antt =====
-- concurrency-examples/fairness/main.go: how the numbers are shared out among the workers.
use design_pocs.Common.{
  ℕ, zero, suc, ◌+◌, ◌-◌, ◌*◌, ◌/◌, ◌≤◌, ◌<◌, ◌≡◌, ◌≢◌, ◌⊎◌, inl, inr, refl, ap, sym, ◌∙◌, Bool,
  true, false, Bool-cases, List, [], ◌∷◌, arith, ltb, ◌==◌, if◌then◌else◌,
}

abbrev pub max_number : ℕ
max_number = 500000000

abbrev pub num_workers : ℕ
num_workers = 10

-- nonFairPrimeCalculator: the numbers from batchStart up to and without batchEnd go to worker `i`.
abbrev pub batch_start : ℕ → ℕ
batch_start i = 2 + i * (max_number / num_workers)

unfoldable pub batch_end : ℕ → ℕ
batch_end i = if i == num_workers - 1 then max_number else batch_start i + max_number / num_workers

abbrev pub InBatch : ℕ → ℕ → Type 0
InBatch i n = (i < num_workers) × (batch_start i ≤ n) × (n < batch_end i)

-- Every number from 2 on below the greatest is in the batch of exactly one worker, and no other
-- number is in a batch.
pub batches_partition :
    (n : ℕ)
    → ((2 ≤ n) × (n < max_number) × (i : ℕ) × InBatch i n × ((j : ℕ) → InBatch j n → j ≡ i))
      ⊎ (((n < 2) ⊎ (max_number ≤ n)) × ((j : ℕ) → InBatch j n → ⊥))
unfolding batch_end
batches_partition n = elim (Bool-cases (ltb n 2)) [
  | inl low ↦ inr (inl (ground arith), λ j (few, from, to). ground arith)
  | inr from_two ↦ elim (Bool-cases (ltb n max_number)) [
    | inr high ↦ inr (inr (ground arith), λ j (few, from, to). ground arith)
    | inl below ↦ inl (
      ground arith,
      ground arith,
      (n - 2) / (max_number / num_workers),
      (ground arith, ground arith, ground arith),
      λ j (few, from, to). ground arith,
    )
  ]
]

-- calculatePrimesFairly: the shared counter, the workers that have ended, and the numbers that were
-- taken, the latest first. The counter is an int32 in the source; it ends at most one above the
-- greatest number for each worker.
pub record Sharing : Type 0 where
  pub prime_start : ℕ
  pub ended : List ℕ
  pub taken : List ℕ

abbrev pub start : Sharing
start = record { prime_start = 1; ended = []; taken = [] }

abbrev listed : ℕ → List ℕ → Bool
listed w [] = false
listed w (x ∷ xs) = let rest = listed w xs in if x == w then true else rest

-- One round of the loop of worker `w`; a worker that has ended does nothing.
unfoldable pub round : ℕ → Sharing → Sharing
round w s =
    let current = s.prime_start + 1 in
    if listed w s.ended
    then s
    else if ltb max_number current
    then record s { prime_start = current; ended = w ∷ s.ended }
    else record s { prime_start = current; taken = current ∷ s.taken }

-- The rounds in the order in which the workers' atomic additions happen.
unfoldable pub rounds : List ℕ → Sharing → Sharing
rounds [] s = s
rounds (w ∷ ws) s = rounds ws (round w s)

-- The numbers from 2 to `m`, the greatest first.
abbrev pub numbers_to : ℕ → List ℕ
numbers_to zero = []
numbers_to (suc zero) = []
numbers_to (suc (suc m)) = suc (suc m) ∷ numbers_to (suc m)

-- What was taken are the numbers from 2 to the counter, or to the greatest, and a worker ends only
-- when the counter has passed that.
abbrev Taken : Sharing → Type 0
Taken s =
    (1 ≤ s.prime_start)
    × (((s.prime_start ≤ max_number) × (s.ended ≡ []) × (s.taken ≡ numbers_to s.prime_start))
        ⊎ ((max_number < s.prime_start) × (s.taken ≡ numbers_to max_number)))

numbers_to-suc : (m : ℕ) → 1 ≤ m → numbers_to (m + 1) ≡ (m + 1) ∷ numbers_to m
numbers_to-suc zero h = absurd (omega arith)
numbers_to-suc (suc m) h = let two : suc m + 1 ≡ suc (suc m) = omega arith in rw two

round-Taken : (w : ℕ) (s : Sharing) → Taken s → Taken (round w s)
unfolding round
round-Taken w s (some_start, inl (low, none_ended, taken)) =
    let running : listed w s.ended ≡ false = ap (listed w) none_ended in
    elim (Bool-cases (ltb max_number (s.prime_start + 1))) [
      | inl past ↦
          let last : s.prime_start ≡ max_number = ground arith in
          rw running (rw past (omega arith, inr (ground arith, taken ∙ ap numbers_to last)))
      | inr more ↦ rw running (
          rw more (
            omega arith,
            inl (
              ground arith,
              none_ended,
              ap (λ l. (s.prime_start + 1) ∷ l) taken
                  ∙ sym (numbers_to-suc s.prime_start some_start),
            ),
          ))
    ]
round-Taken w s (some_start, inr (high, taken)) = elim (Bool-cases (listed w s.ended)) [
  | inl done ↦ rw done (some_start, inr (high, taken))
  | inr running ↦
      let past : ltb max_number (s.prime_start + 1) ≡ true = ground arith in
      rw running (rw past (omega arith, inr (omega arith, taken)))
]

rounds-Taken : (ws : List ℕ) (s : Sharing) → Taken s → Taken (rounds ws s)
unfolding rounds
rounds-Taken [] s t = t
rounds-Taken (w ∷ ws) s t = rounds-Taken ws (round w s) (round-Taken w s t)

-- In any order of the workers' rounds the numbers that were taken are those from 2 to some number, each
-- once; when a worker has ended, all numbers up to the greatest were taken.
pub rounds_share :
    (ws : List ℕ)
    → let s = rounds ws start in
      (m : ℕ) × (m ≤ max_number) × (s.taken ≡ numbers_to m) × (s.ended ≢ [] → m ≡ max_number)
rounds_share ws = elim (rounds-Taken ws start (omega arith, inl (omega arith, refl, refl))).1 [
  | inl (low, none_ended, taken) ↦
      ((rounds ws start).prime_start, low, taken, λ ended. absurd (ended none_ended))
  | inr (high, taken) ↦ (max_number, omega arith, taken, λ ended. refl)
]
