-- ===== src/DynamoTables/Rows.antt =====
-- relational-db/dynamo-db-implementation/dynamo/dynamodb.go: the items that Query returns.
use design_pocs.Common.{
  trim_space, ℕ, ◌≡◌, ◌≢◌, refl, sym, ap, ◌∙◌, true, false, ◌||◌, Option, some, List, [], ◌∷◌, All,
  length, ◌==◌, Bytes, bytes_eq, bytes_key, lookup, insert, lookup-insert_self, lookup-insert_ne,
  arith,
}
use design_pocs.DynamoTables.Text.{split_comma}
use design_pocs.DynamoTables.Statements.{TableAttributes, QueryInput, query_statement, query_args}
use design_pocs.DynamoTables.Items.{Row, Item, or_empty, fill, read_item, read_items}
use design_pocs.DynamoTables.Requests.{
  opened, Sql, DynamoDb, done, order_by, effective_sort_key, queried, query_by, query_found, query,
}

-- Columns that stay different when they are trimmed.
abbrev pub IsDistinct : List Bytes → Type 0
IsDistinct [] = Unit {0}
IsDistinct (c ∷ cs) = All (λ b. trim_space c ≢ trim_space b) cs × IsDistinct cs

-- The item has each column of the row, under the trimmed name, and the empty text for NULL.
abbrev pub Shows : List Bytes → Row → Item → Type 0
Shows (c ∷ cs) (v ∷ vs) m = (lookup (trim_space c) m ≡ some (or_empty v)) × Shows cs vs m
Shows cs vs m = Unit {0}

abbrev pub ShowsAll : List Bytes → List Row → List Item → Type 0
ShowsAll columns [] [] = Unit {0}
ShowsAll columns (row ∷ rows) (m ∷ ms) = Shows columns row m × ShowsAll columns rows ms
ShowsAll columns _ _ = ⊥

fill_keeps :
    (k : Bytes) (cs : List Bytes) (vs : Row) (m : Item)
    → All (λ b. k ≢ trim_space b) cs
    → lookup k (fill cs vs m) ≡ lookup k m
unfolding fill
fill_keeps k [] vs m h = refl
fill_keeps k (c ∷ cs) [] m h = refl
fill_keeps k (c ∷ cs) (v ∷ vs) m (h, hs) =
    fill_keeps k cs vs (insert (trim_space c) (or_empty v) m) hs
    ∙ lookup-insert_ne (trim_space c) k (or_empty v) m (λ e. h (sym e))

fill-Shows : (cs : List Bytes) (vs : Row) (m : Item) → IsDistinct cs → Shows cs vs (fill cs vs m)
unfolding fill
fill-Shows [] vs m h = tt
fill-Shows (c ∷ cs) [] m h = tt
fill-Shows (c ∷ cs) (v ∷ vs) m (h, hs) =
    let m' = insert (trim_space c) (or_empty v) m in
    (
      fill_keeps (trim_space c) cs vs m' h ∙ lookup-insert_self (trim_space c) (or_empty v) m,
      fill-Shows cs vs m' hs,
    )

read_items-ShowsAll :
    (columns : List Bytes) (rows : List Row)
    → IsDistinct columns
    → All (λ row. length columns ≡ length row) rows
    → (ms : List Item) × (read_items columns rows ≡ some ms) × ShowsAll columns rows ms
unfolding read_items read_item
read_items-ShowsAll columns [] h lengths = ([], refl, tt)
read_items-ShowsAll columns (row ∷ rows) h (same, lengths) =
    let (ms, e, shown) = read_items-ShowsAll columns rows h lengths in
    let fits : (length columns == length row) ≡ true = ground arith in
    let read : read_item columns row ≡ some (fill columns row []) = rw (fits, read_item) refl in
    (
      fill columns row [] ∷ ms,
      rw (read, read_items) (rw e refl),
      (fill-Shows columns row [] h, shown),
    )

-- When the table is registered, its sort key or index is found, the projection's columns are distinct
-- and the database opens a cursor over rows with as many columns, Query returns an item for every row
-- that arrived, in their order, with each column's value under its trimmed name and the empty text for
-- NULL, even when the rows broke off with an error.
pub query-ShowsAll :
    {S : Type 0} (sql : Sql S) (print : ℕ → Bytes) (input : QueryInput) (d : DynamoDb S)
    (t : TableAttributes) (k : Bytes) (s : S) (rows : List Row) (ending : Option ℕ)
    → bytes_eq input.query_name [] || bytes_eq input.key_condition [] ≡ false
    → lookup input.query_name d.table_attributes ≡ some t
    → effective_sort_key t input.index ≡ order_by k
    → sql.select (query_statement k input) (query_args input) d.db_conn ≡ (s, opened rows ending)
    → IsDistinct (split_comma input.query_projection)
    → All (λ row. length (split_comma input.query_projection) ≡ length row) rows
    → (ms : List Item) × (query sql print input d ≡ (record d { db_conn = s }, done ms))
      × ShowsAll (split_comma input.query_projection) rows ms
unfolding query
query-ShowsAll sql print input d t k s rows ending given found order answer distinct lengths =
    let (ms, e, shown) =
      read_items-ShowsAll (split_comma input.query_projection) rows distinct lengths in
    (
      ms,
      rw given (
          ap (query_found sql print input d) found
          ∙ ap (query_by sql print input d) order
          ∙ ap (queried sql print input d) answer
          ∙ rw e refl),
      shown,
    )
