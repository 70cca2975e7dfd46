-- ===== src/IdGen/Served.antt =====
-- id-generators/disk-based/main.go: what one request does to the counter and its file.
use design_pocs.Common.{
  ℕ, ◌+◌, ◌/◌, ◌%◌, ◌≤◌, ◌≡◌, ◌⊎◌, refl, inl, inr, true, Bool-cases, arith, ◌==◌,
}
use design_pocs.IdGen.Disk.{
  iterations, CounterFile, holds, Generator, Persist, saved, fails, generated, exited, serve, Route,
  root, periodic,
}

-- No multiple of the batch size lies between the number in the file and the counter.
abbrev pub Covered : Generator → Type 0
Covered g =
    (p : ℕ) × (g.file ≡ holds p) × (p ≤ g.counter) × (g.counter / iterations ≡ p / iterations)

-- The periodic route writes at a multiple of the batch size.
due_write :
    (io : Persist) (g : Generator)
    → ((g.counter + 1) % iterations == 0) ≡ true
    → ((g' : Generator) × (serve periodic io g ≡ generated (g.counter + 1) g')
        × (g'.counter ≡ g.counter + 1)
        × (Covered g → Covered g'))
      ⊎ ((left : CounterFile) × (io ≡ fails left) × (serve periodic io g ≡ exited left))
unfolding serve
due_write saved g due = inl (
  record { counter = g.counter + 1; file = holds (g.counter + 1) },
  rw due,
  refl,
  λ c. (g.counter + 1, refl, omega arith, refl),
)
due_write (fails left) g due = inr (left, refl, rw due)

-- One request hands out the next number, and a covered counter stays covered; or its write fails.
pub serve-cases :
    (r : Route) (io : Persist) (g : Generator)
    → ((g' : Generator) × (serve r io g ≡ generated (g.counter + 1) g')
        × (g'.counter ≡ g.counter + 1)
        × (Covered g → Covered g'))
      ⊎ ((left : CounterFile) × (io ≡ fails left) × (serve r io g ≡ exited left))
unfolding serve
serve-cases root saved g = inl (
  record { counter = g.counter + 1; file = holds (g.counter + 1) },
  refl,
  refl,
  λ c. (g.counter + 1, refl, omega arith, refl),
)
serve-cases root (fails left) g = inr (left, refl, refl)
serve-cases periodic io g = elim (Bool-cases ((g.counter + 1) % iterations == 0)) [
  | inl due ↦ due_write io g due
  | inr later ↦ inl (
    record { counter = g.counter + 1; file = g.file },
    rw later,
    refl,
    λ (p, f, low, block). (p, f, omega arith, ground arith),
  )
]
