-- ===== src/IdGen/Disjoint.antt =====
-- id-generators/amazon-way/main.go: the ranges of a service do not overlap.
use design_pocs.Common.{
  ℕ, ◌+◌, ◌<◌, ◌≡◌, inl, inr, refl, ap, sym, ◌∙◌, Bool, true, false, Bool-cases, Option-cases, none,
  some, List, [], ◌∷◌, arith, Bytes, bytes_eq, bytes_eq_iff, bytes_key, lookup, insert,
  lookup-insert, if◌then◌else◌,
}
use mathlib.Core.Path.{subst}
use design_pocs.IdGen.Ranges.{
  batch_size, Table, IdRange, Response, ok, bad_request, server_error, Database, store_and_reply,
  generate_handler, handle_all,
}

-- The highest id that a service has been given so far.
abbrev pub last_id : Bytes → Table → ℕ
last_id service table = elim (lookup service table) [ none ↦ 0 | some v ↦ v ]

abbrev pub range_after : ℕ → IdRange
range_after last = record { min = last + 1; max = last + batch_size }

-- A request is answered with the hundred ids behind the service's last one, and the last one moves
-- to their end; or it is refused or fails, and the table is as it was.
pub data Handled (service : Bytes) (table : Table) (r : Table × Response) : Type 0 where
  given :
      r ≡ (
        insert service (last_id service table + batch_size) table,
        ok (range_after (last_id service table)),
      )
      → Handled service table r
  refused : r ≡ (table, bad_request) → Handled service table r
  failed : r ≡ (table, server_error) → Handled service table r

Handled-if :
    (service : Bytes) (table : Table) (b : Bool) (x y : Table × Response)
    → Handled service table x
    → Handled service table y
    → Handled service table (if b then x else y)
Handled-if service table true x y hx hy = hx
Handled-if service table false x y hx hy = hy

store_and_reply-Handled :
    (db : Database) (service : Bytes) (table : Table) (last : ℕ)
    → last_id service table ≡ last
    → Handled service table
        (store_and_reply db service (last + batch_size) (range_after last) table)
unfolding store_and_reply
store_and_reply-Handled db service table last e =
    Handled-if service table db.executes _ _
      (Handled-if service table db.commits _ _ (given (rw e)) (failed refl)) (failed refl)

-- Whatever the database answers, a request is answered with the hundred ids behind the service's last
-- one, which moves to their end, or it is refused or fails and the table is as it was (a Commit that
-- returns an error is taken to have changed nothing).
pub generate_handler-Handled :
    (db : Database) (service : Bytes) (table : Table)
    → Handled service table (generate_handler db service table)
unfolding generate_handler
generate_handler-Handled db service table =
    Handled-if service table (bytes_eq service []) _ _ (refused refl) (
      Handled-if service table db.begins _ _
        (Handled-if service table db.selects _ _ found (failed refl)) (failed refl))
  where
    found : Handled service table (elim (lookup service table) [
      | none ↦ store_and_reply db service batch_size (record { min = 1; max = batch_size }) table
      | some counter ↦
          store_and_reply db service
            (counter + batch_size)
            (record { min = counter + 1; max = counter + batch_size })
            table
    ])
    found = elim (Option-cases (lookup service table)) [
      | inl new ↦ rw new (store_and_reply-Handled db service table 0 (rw (new, last_id)))
      | inr (counter, old) ↦
          rw old (store_and_reply-Handled db service table counter (rw (old, last_id)))
    ]

-- Every range that the service gets in the run has a hundred ids, which lie above `low` and above
-- the ranges that it got before.
abbrev pub Above : Bytes → ℕ → List (Bytes × Response) → Type 0
Above service low [] = Unit {0}
Above service low ((s, ok range) ∷ rest) =
    if bytes_eq s service
    then (low < range.min) × (range.min + batch_size ≡ range.max + 1) × Above service range.max rest
    else Above service low rest
Above service low ((s, bad_request) ∷ rest) = Above service low rest
Above service low ((s, server_error) ∷ rest) = Above service low rest

last_id-insert :
    (s j : Bytes) (v : ℕ) (table : Table)
    → last_id j (insert s v table) ≡ (if bytes_eq s j then v else last_id j table)
last_id-insert s j v table = ground (arith, lookup-insert s j v table)

-- In any run of requests, with any answers of the database, the ranges of each service have a
-- hundred ids each, begin above the service's last id before the run, and do not overlap.
pub handle_all-Above :
    (requests : List (Database × Bytes)) (table : Table) (service : Bytes)
    → Above service (last_id service table) (handle_all requests table).1
unfolding handle_all
handle_all-Above [] table service = tt
handle_all-Above ((db, s) ∷ rest) table service = elim (generate_handler-Handled db s table) [
  | given e ↦
      let last = last_id s table in
      let table' : Table = insert s (last + batch_size) table in
      let responses = (handle_all rest table').1 in
      let ih = handle_all-Above rest table' service in
      rw (e, handle_all)
        (elim (Bool-cases (bytes_eq s service)) [
          | inl same ↦
              let key : s ≡ service = (bytes_eq_iff s service).0 same in
              let here : last_id service table ≡ last = ap (λ x. last_id x table) (sym key) in
              let moved : last_id service table' ≡ last + batch_size =
                last_id-insert s service (last + batch_size) table ∙ rw same in
              rw same
                (omega arith, omega arith, subst (λ low. Above service low responses) moved ih)
          | inr other ↦
              let kept : last_id service table' ≡ last_id service table =
                last_id-insert s service (last + batch_size) table ∙ rw other in
              rw other (subst (λ low. Above service low responses) kept ih)
        ])
  | refused e ↦ rw (e, handle_all) (handle_all-Above rest table service)
  | failed e ↦ rw (e, handle_all) (handle_all-Above rest table service)
]
