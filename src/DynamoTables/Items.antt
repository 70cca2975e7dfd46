-- ===== src/DynamoTables/Items.antt =====
-- relational-db/dynamo-db-implementation/dynamo/dynamodb.go: how GetItem and Query read a row. A column that is NULL is none.
use design_pocs.Common.{
  trim_space, Option, none, some, List, [], ◌∷◌, length, ◌==◌, if◌then◌else◌, Bytes, bytes_eq,
  bytes_key, insert,
}

abbrev pub Row : Type 0
Row = List (Option Bytes)

abbrev pub Item : Type 0
Item = List (Bytes × Bytes)

abbrev pub or_empty : Option Bytes → Bytes
or_empty none = []
or_empty (some v) = v

unfoldable pub fill : List Bytes → Row → Item → Item
unfolding insert trim_space bytes_eq
fill (c ∷ cs) (v ∷ vs) m = fill cs vs (insert (trim_space c) (or_empty v) m)
fill cs vs m = m

-- Scan wants as many destinations as the row has columns.
unfoldable pub read_item : List Bytes → Row → Option Item
unfolding fill
read_item columns row = if length columns == length row then some (fill columns row []) else none

abbrev pub cons_item : Item → Option (List Item) → Option (List Item)
cons_item m none = none
cons_item m (some ms) = some (m ∷ ms)

-- The loop over rows.Next ends at the first row that cannot be scanned.
unfoldable pub read_items : List Bytes → List Row → Option (List Item)
unfolding read_item
read_items columns [] = some []
read_items columns (row ∷ rows) =
    let rest = read_items columns rows in
    elim (read_item columns row) [ none ↦ none | some m ↦ cons_item m rest ]
