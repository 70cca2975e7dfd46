-- ===== src/IdGen/Tests.antt =====
-- Runs of the two id generators, and each theorem at an input.
use design_pocs.Common.{
  ℕ, ◌+◌, ◌≡◌, ◌≤◌, ◌<◌, ◌⊎◌, inl, refl, arith, false, List, [], ◌∷◌, All, length, Bytes, codes,
  bytes_eq, bytes_key, lookup, insert,
}
use design_pocs.IdGen.Disk.{
  iterations, CounterFile, Generator, holds, Persist, saved, fails, started, refused, running,
  ended, Route, root, periodic, serve, serve_all, restart, load_counter,
}
use design_pocs.IdGen.Uniqueness.{
  Consecutive, saving, serve_all-Consecutive, AllUntorn, restart_never_reissues,
  second_restart_reissues, periodics,
}
use design_pocs.IdGen.Ranges.{
  Database, Table, answers, ok, server_error, generate_handler, handle_all, store_and_reply,
}
use design_pocs.IdGen.Disjoint.{Handled, Above, last_id, generate_handler-Handled, handle_all-Above}

abbrev fresh : Generator
fresh = record { counter = 50; file = holds 50 }

abbrev mixed : List Route
mixed = root ∷ periodic ∷ periodic ∷ []

ids_of_mixed : (serve_all (saving mixed) fresh).0 ≡ 51 ∷ 52 ∷ 53 ∷ []
unfolding serve_all serve
ids_of_mixed = refl

serve_all-Consecutive_example :
    Consecutive 50 (serve_all (saving mixed) fresh).0
    × (length (serve_all (saving mixed) fresh).0 ≡ length mixed)
    × (g' : Generator) × ((serve_all (saving mixed) fresh).1 ≡ running g')
    × (g'.counter ≡ 50 + length mixed)
serve_all-Consecutive_example = serve_all-Consecutive mixed fresh

-- The third request cannot write its number, and the file stays as it was.
abbrev unwritten : List (Route × Persist)
unwritten = (root, saved) ∷ (periodic, saved) ∷ (root, fails (holds 51)) ∷ (root, saved) ∷ []

unwritten_run : serve_all unwritten fresh ≡ (51 ∷ 52 ∷ [], ended (holds 51))
unfolding serve_all serve
unwritten_run = refl

unwritten-AllUntorn : AllUntorn unwritten fresh
unfolding AllUntorn serve
unwritten-AllUntorn = (tt, (tt, (inl refl, tt)))

restart_never_reissues_example :
    ((left : CounterFile) × ((serve_all unwritten fresh).1 ≡ ended left)
      × (restart saved (serve_all unwritten fresh).1 ≡ refused left))
    ⊎ ((g' : Generator) × (restart saved (serve_all unwritten fresh).1 ≡ started g')
        × (bound : ℕ) × All (λ id. id ≤ bound) (serve_all unwritten fresh).0
        × All (λ id. bound < id) (serve_all unwritten g').0)
restart_never_reissues_example =
    restart_never_reissues unwritten unwritten saved fresh (50, refl, omega arith, refl)
      unwritten-AllUntorn

second_restart_reissues_example :
    (g : Generator) × (rest : List ℕ) × (g' : Generator) × (load_counter (holds 50) saved
      ≡ started g)
    × ((serve_all (saving (periodics (2 + 1))) g).0 ≡ (50 + iterations + 1) ∷ rest)
    × (restart saved (serve_all (saving (periodics (2 + 1))) g).1 ≡ started g')
    × ((serve_all (saving (periodic ∷ [])) g').0 ≡ (50 + iterations + 1) ∷ [])
second_restart_reissues_example = second_restart_reissues 50 2 refl (omega arith)

abbrev rows : Table
rows = (codes "orders", 200) ∷ []

abbrev no_commit : Database
no_commit = record answers { commits = false }

abbrev requests : List (Database × Bytes)
requests = (answers, codes "orders") ∷ (no_commit, codes "orders") ∷ (answers, codes "orders") ∷ []

ranges_of_requests :
    (handle_all requests rows).1
    ≡ (codes "orders", ok (record { min = 201; max = 300 }))
      ∷ (codes "orders", server_error)
      ∷ (codes "orders", ok (record { min = 301; max = 400 }))
      ∷ []
unfolding handle_all generate_handler store_and_reply bytes_eq lookup insert
ranges_of_requests = refl

generate_handler-Handled_example :
    Handled (codes "orders") rows (generate_handler no_commit (codes "orders") rows)
generate_handler-Handled_example = generate_handler-Handled no_commit (codes "orders") rows

handle_all-Above_example :
    Above (codes "orders") (last_id (codes "orders") rows) (handle_all requests rows).1
handle_all-Above_example = handle_all-Above requests rows (codes "orders")
