-- ===== src/IdGen/Uniqueness.antt =====
-- id-generators/disk-based/main.go: which ids can be handed out twice.
use design_pocs.Common.{
  ℕ, zero, suc, ◌+◌, ◌*◌, ◌%◌, ◌≤◌, ◌<◌, ◌≡◌, ◌⊎◌, refl, ◌∙◌, inl, inr, false, List, [], ◌∷◌, arith,
  All, length, ◌==◌,
}
use design_pocs.IdGen.Disk.{
  iterations, CounterFile, garbage, unreadable, holds, Generator, Persist, saved, fails, generated,
  exited, started, refused, serve, Process, running, ended, file_left, serve_all, Route, periodic,
  restart, load_counter,
}
use design_pocs.IdGen.Served.{Covered, serve-cases}

-- The ids of a run are the numbers behind the counter, in order.
abbrev pub Consecutive : ℕ → List ℕ → Type 0
Consecutive n [] = Unit {0}
Consecutive n (id ∷ ids) = (id ≡ n + 1) × Consecutive (n + 1) ids

-- Requests with a file that takes every write.
abbrev pub saving : List Route → List (Route × Persist)
saving [] = []
saving (r ∷ rs) = (r, saved) ∷ saving rs

serve_saved :
    (r : Route) (g : Generator)
    → (g' : Generator) × (serve r saved g ≡ generated (g.counter + 1) g')
      × (g'.counter ≡ g.counter + 1)
serve_saved r g = elim (serve-cases r saved g) [
  | inl (g', served, count, covered) ↦ (g', served, count)
  | inr (left, never, served) ↦ absurd (ground (arith, never))
]

-- While the file takes every write, each request gets an id, and the ids count on from the counter.
pub serve_all-Consecutive :
    (rs : List Route) (g : Generator)
    → Consecutive g.counter (serve_all (saving rs) g).0
      × (length (serve_all (saving rs) g).0 ≡ length rs)
      × (g' : Generator) × ((serve_all (saving rs) g).1 ≡ running g')
      × (g'.counter ≡ g.counter + length rs)
unfolding serve_all
serve_all-Consecutive [] g = (tt, refl, g, refl, omega arith)
serve_all-Consecutive (r ∷ rs) g =
    let (g', served, count) = serve_saved r g in
    let (ids, all, end, runs, total) = serve_all-Consecutive rs g' in
    rw (served, serve_all)
      ((refl, rw (← count) ids), omega arith, end, runs, omega (arith, count, total))

-- Whatever happens to the writes, the ids that are handed out count on from the counter.
ids-Consecutive :
    (rs : List (Route × Persist)) (g : Generator) → Consecutive g.counter (serve_all rs g).0
unfolding serve_all
ids-Consecutive [] g = tt
ids-Consecutive ((r, io) ∷ rs) g = elim (serve-cases r io g) [
  | inl (g', served, count, covered) ↦
      rw (served, serve_all) (refl, rw (← count) (ids-Consecutive rs g'))
  | inr (left, failed, served) ↦ rw (served, serve_all) tt
]

-- A write that fails leaves the file as it was, or with the new number, or with no number.
abbrev pub IsUntorn : Persist → Generator → Type 0
IsUntorn saved g = Unit {0}
IsUntorn (fails left) g =
    (left ≡ g.file) ⊎ ((left ≡ holds (g.counter + 1)) ⊎ ((left ≡ garbage) ⊎ (left ≡ unreadable)))

unfoldable pub AllUntorn : List (Route × Persist) → Generator → Type 0
AllUntorn [] g = Unit {0}
AllUntorn ((r, io) ∷ rs) g =
    IsUntorn io g
    × (elim (serve r io g) [ exited left ↦ Unit {0} | generated id g' ↦ AllUntorn rs g' ])

-- What a process leaves for the next one, whose ids begin 51 above the number in the file.
abbrev HasLeft : ℕ → Process → Type 0
HasLeft bound p =
    ((left : CounterFile) × (p ≡ ended left) × ((left ≡ garbage) ⊎ (left ≡ unreadable)))
    ⊎ ((q : ℕ) × (file_left p ≡ holds q) × (bound < q + iterations))

untorn-HasLeft :
    (left : CounterFile) (g : Generator)
    → Covered g
    → IsUntorn (fails left) g
    → HasLeft g.counter (ended left)
untorn-HasLeft left g (p, f, low, block) (inl same) = inr (p, same ∙ f, omega arith)
untorn-HasLeft left g c (inr (inl new)) = inr (g.counter + 1, new, omega arith)
untorn-HasLeft left g c (inr (inr none)) = inl (left, refl, none)

serve_all-HasLeft :
    (rs : List (Route × Persist)) (g : Generator)
    → Covered g
    → AllUntorn rs g
    → HasLeft (g.counter + length (serve_all rs g).0) (serve_all rs g).1
unfolding serve_all AllUntorn
serve_all-HasLeft [] g (p, f, low, block) h = inr (p, f, omega arith)
serve_all-HasLeft ((r, io) ∷ rs) g c (untorn, h) = elim (serve-cases r io g) [
  | inl (g', served, count, covered) ↦
      let rest = serve_all-HasLeft rs g' (covered c) (rw served at h) in
      let same : g'.counter + length (serve_all rs g').0
          ≡ g.counter + suc (length (serve_all rs g').0) =
        omega (arith, count) in
      rw (served, serve_all) (rw same at rest)
  | inr (left, failed, served) ↦
      let none_more : g.counter + 0 ≡ g.counter = omega arith in
      rw (served, serve_all, none_more) (untorn-HasLeft left g c (rw failed at untorn))
]

Consecutive-above : (lo n : ℕ) (ids : List ℕ) → lo ≤ n → Consecutive n ids → All (λ id. lo < id) ids
Consecutive-above lo n [] h c = tt
Consecutive-above lo n (id ∷ ids) h (e, c) =
    (omega arith, Consecutive-above lo (n + 1) ids (omega arith) c)

Consecutive-below :
    (hi n : ℕ) (ids : List ℕ) → n + length ids ≤ hi → Consecutive n ids → All (λ id. id ≤ hi) ids
Consecutive-below hi n [] h c = tt
Consecutive-below hi n (id ∷ ids) h (e, c) =
    (omega arith, Consecutive-below hi (n + 1) ids (omega arith) c)

-- When the counter is in the same block of 50 as the number in its file, and no write that fails leaves a
-- torn number (the file stays as it was, or it has the new number, or no number), the process may be
-- killed after any requests, or end at a failed write, and be restarted: every id of the new process is
-- above every id of the old one; or the old process had ended at a failed write, and the new one refuses
-- to start.
pub restart_never_reissues :
    (before after : List (Route × Persist)) (io : Persist) (g : Generator)
    → Covered g
    → AllUntorn before g
    → ((left : CounterFile) × ((serve_all before g).1 ≡ ended left)
        × (restart io (serve_all before g).1 ≡ refused left))
      ⊎ ((g' : Generator) × (restart io (serve_all before g).1 ≡ started g')
          × (bound : ℕ) × All (λ id. id ≤ bound) (serve_all before g).0
          × All (λ id. bound < id) (serve_all after g').0)
unfolding restart
restart_never_reissues before after io g c untorn =
    let last = g.counter + length (serve_all before g).0 in
    elim (serve_all-HasLeft before g c untorn) [
      | inl (left, ends, inl no_number) ↦ inl (left, ends, rw (ends, no_number))
      | inl (left, ends, inr not_read) ↦ inl (left, ends, rw (ends, not_read))
      | inr (q, holds_q, above) ↦
          let g' : Generator = record { counter = q + iterations; file = holds q } in
          inr (
            g',
            rw holds_q,
            last,
            Consecutive-below last g.counter (serve_all before g).0 (omega arith)
                (ids-Consecutive before g),
            Consecutive-above last g'.counter (serve_all after g').0 (omega (arith, above))
                (ids-Consecutive after g'),
          )
    ]

-- The state of a process that was started on a file with this number.
abbrev pub restarted_on : ℕ → Generator
restarted_on v = record { counter = v + iterations; file = holds v }

abbrev pub periodics : ℕ → List Route
periodics zero = []
periodics (suc n) = periodic ∷ periodics n

-- Between two multiples of the batch size the periodic route does not touch the file.
serve-between :
    (v c : ℕ)
    → v % iterations ≡ 0
    → v + iterations ≤ c
    → c + 1 < v + 2 * iterations
    → serve periodic saved (record { counter = c; file = holds v })
      ≡ generated (c + 1) (record { counter = c + 1; file = holds v })
unfolding serve
serve-between v c h low high =
    let later : ((c + 1) % iterations == 0) ≡ false = ground arith in rw later

file-periodics :
    (v c k : ℕ)
    → v % iterations ≡ 0
    → v + iterations ≤ c
    → c + k < v + 2 * iterations
    → file_left (serve_all (saving (periodics k)) (record { counter = c; file = holds v })).1
      ≡ holds v
unfolding serve_all
file-periodics v c zero h low high = refl
file-periodics v c (suc k) h low high =
    rw (serve-between v c h low (omega arith), serve_all)
      (file-periodics v (c + 1) k h (omega arith) (omega arith))

-- A process started on a file that holds a multiple of 50 and killed after one to 49 requests to the
-- periodic route leaves the file as it was, so the next process hands out the same first id again.
pub second_restart_reissues :
    (v n : ℕ)
    → v % iterations ≡ 0
    → n + 1 < iterations
    → (g : Generator) × (rest : List ℕ) × (g' : Generator) × (load_counter (holds v) saved
        ≡ started g)
      × ((serve_all (saving (periodics (n + 1))) g).0 ≡ (v + iterations + 1) ∷ rest)
      × (restart saved (serve_all (saving (periodics (n + 1))) g).1 ≡ started g')
      × ((serve_all (saving (periodic ∷ [])) g').0 ≡ (v + iterations + 1) ∷ [])
unfolding restart
second_restart_reissues v n h few =
    let g : Generator = restarted_on v in
    let g1 : Generator = record { counter = v + iterations + 1; file = holds v } in
    let first = serve-between v (v + iterations) h (omega arith) (omega arith) in
    let n_suc : n + 1 ≡ suc n = omega arith in
    (
      g,
      (serve_all (saving (periodics n)) g1).0,
      g,
      refl,
      rw n_suc (unfold serve_all in rw (first, serve_all)),
      rw (file-periodics v (v + iterations) (n + 1) h (omega arith) (omega arith)),
      unfold serve_all in rw (first, serve_all),
    )
