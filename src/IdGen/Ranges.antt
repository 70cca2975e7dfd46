-- ===== src/IdGen/Ranges.antt =====
-- id-generators/amazon-way/main.go: ranges of ids per service, one row of a MySQL table each.
-- A transaction works on a copy of the table that Commit publishes and the deferred Rollback drops;
-- SELECT … FOR UPDATE keeps the row of a service to one transaction at a time, so requests for a
-- service follow one another. The counter is unbounded here, an int64 in the source.
use design_pocs.Common.{
  ℕ, ◌+◌, Bool, true, none, some, List, [], ◌∷◌, Bytes, bytes_eq, bytes_key, lookup, insert,
  if◌then◌else◌,
}

abbrev pub batch_size : ℕ
batch_size = 100

-- The rows of `ids`: service_name and value.
abbrev pub Table : Type 0
Table = List (Bytes × ℕ)

pub record IdRange : Type 0 where
  pub min : ℕ
  pub max : ℕ

pub data Response : Type 0 where
  ok : IdRange → Response
  bad_request server_error : Response

-- Whether the database answers each call of one request: Begin, the SELECT, the INSERT or UPDATE,
-- and the Commit. A commit that fails publishes nothing.
pub record Database : Type 0 where
  pub begins : Bool
  pub selects : Bool
  pub executes : Bool
  pub commits : Bool

abbrev pub answers : Database
answers = record { begins = true; selects = true; executes = true; commits = true }

-- Exec, Commit and the reply. The working copy is lost unless the commit succeeds.
unfoldable pub store_and_reply : Database → Bytes → ℕ → IdRange → Table → Table × Response
store_and_reply db service value range table =
    if db.executes
    then (if db.commits then (insert service value table, ok range) else (table, server_error))
    else (table, server_error)

-- generateHandler, with the query parameter service_name, "" when it is missing.
unfoldable pub generate_handler : Database → Bytes → Table → Table × Response
unfolding store_and_reply
generate_handler db service table =
    if bytes_eq service []
    then (table, bad_request)
    else if db.begins
    then if db.selects
      then elim (lookup service table) [
        | none ↦ store_and_reply db service batch_size (record { min = 1; max = batch_size }) table
        | some counter ↦
            store_and_reply db service (counter + batch_size)
              (record { min = counter + 1; max = counter + batch_size }) table
      ]
      else (table, server_error)
    else (table, server_error)

-- One request after the other, each with the answers that the database gives it.
unfoldable pub handle_all : List (Database × Bytes) → Table → Table × List (Bytes × Response)
handle_all [] table = (table, [])
handle_all ((db, service) ∷ rest) table =
    let (table', response) = generate_handler db service table in
    let (table'', responses) = handle_all rest table' in (table'', (service, response) ∷ responses)
