-- ===== src/DynamoTables/Requests.antt =====
-- relational-db/dynamo-db-implementation/dynamo/dynamodb.go: CreateTable, PutItem, GetItem and Query. The database is a parameter.
use design_pocs.Common.{
  ℕ, ◌||◌, Option, none, some, List, [], ◌∷◌, if◌then◌else◌, Bytes, bytes_eq, bytes_key, lookup,
  insert,
}
use design_pocs.DynamoTables.Text.{split_comma}
use design_pocs.DynamoTables.Statements.{
  Any, nil, text, other, KeyAttributes, LocalSecondaryIndex, TableAttributes, CreateTableInput,
  PutItemInput, GetItemInput, QueryInput, is_nil, is_text, value_at, create_statement,
  get_statement, get_args, put_statement, put_args, query_statement, query_args,
}
use design_pocs.DynamoTables.Items.{Row, Item, read_item, read_items}

-- What a query gives: an error, or rows, and perhaps an error behind the last row that arrived.
pub data Cursor : Type 0 where
  refused : ℕ → Cursor
  opened : List Row → Option ℕ → Cursor

-- Exec, and Query or QueryRow, of the database handle. Errors of the driver are numbers.
pub record Sql (S : Type 0) : Type 0 where
  pub exec : Bytes → List Any → S → S × Option ℕ
  pub select : Bytes → List Any → S → S × Cursor

pub record DynamoDb (S : Type 0) : Type 0 where
  pub db_conn : S
  pub table_attributes : List (Bytes × TableAttributes)

pub data Error : Type 0 where
  table_name_required table_and_key_required no_rows_found no_row scan_mismatch : Error
  no_table : Bytes → Error
  partition_key_required : Bytes → Error
  sort_key_required : Any → Error
  no_index : Bytes → Bytes → Error
  database : ℕ → Error

pub data Reply (A : Type 0) : Type 0 where
  done : A → Reply A
  fails : Error → Reply A
  panics : Reply A

-- A sort key, an index that does not exist, or a type assertion that panics.
pub data SortKey : Type 0 where
  order_by : Bytes → SortKey
  index_missing : Bytes → SortKey
  not_text : SortKey

unfoldable pub index_key : Bytes → List LocalSecondaryIndex → SortKey
unfolding bytes_eq
index_key name [] = index_missing name
index_key name (i ∷ rest) =
    let found = index_key name rest in
    if bytes_eq i.index_name name then order_by i.index_sort_key else found

abbrev pub primary_sort_key : Any → SortKey
primary_sort_key nil = order_by []
primary_sort_key (text k) = order_by k
primary_sort_key (other n) = not_text

unfoldable pub effective_sort_key : TableAttributes → Any → SortKey
unfolding index_key
effective_sort_key t nil = primary_sort_key t.key_attributes.sort_key
effective_sort_key t (text []) = primary_sort_key t.key_attributes.sort_key
effective_sort_key t (text (c ∷ name)) = index_key (c ∷ name) t.indexes
effective_sort_key t (other n) = not_text

module _ {S : Type 0} (sql : Sql S) (print : ℕ → Bytes) where
  abbrev pub created : CreateTableInput → DynamoDb S → S × Option ℕ → DynamoDb S × Reply Unit
  created input d (s, some e) = (record d { db_conn = s }, fails (database e))
  created input d (s, none) =
      let t : TableAttributes = record {
        attributes_table = input.create_name;
        key_attributes = input.keys;
        indexes = input.lsis;
      } in
      (
        record { db_conn = s; table_attributes = insert input.create_name t d.table_attributes },
        done tt,
      )

  unfoldable pub create_table : CreateTableInput → DynamoDb S → DynamoDb S × Reply Unit
  unfolding insert bytes_eq
  create_table input d = created input d (sql.exec (create_statement print input) [] d.db_conn)

  abbrev pub replaced : DynamoDb S → S × Option ℕ → DynamoDb S × Reply Unit
  replaced d (s, some e) = (record d { db_conn = s }, fails (database e))
  replaced d (s, none) = (record d { db_conn = s }, done tt)

  abbrev pub replace : KeyAttributes → PutItemInput → DynamoDb S → DynamoDb S × Reply Unit
  replace k input d = replaced d (sql.exec (put_statement k input) (put_args k input) d.db_conn)

  abbrev pub put_sorted : Any → KeyAttributes → PutItemInput → DynamoDb S → DynamoDb S × Reply Unit
  put_sorted nil k input d = replace k input d
  put_sorted (text s) k input d =
      if bytes_eq (value_at s input.put_keys) []
      then (d, fails (sort_key_required (text s)))
      else replace k input d
  put_sorted (other n) k input d = (d, panics)

  abbrev pub put_keyed : KeyAttributes → PutItemInput → DynamoDb S → DynamoDb S × Reply Unit
  put_keyed k input d =
      if bytes_eq (value_at k.partition_key input.put_keys) []
      then (d, fails (partition_key_required k.partition_key))
      else put_sorted k.sort_key k input d

  abbrev pub put_found :
      PutItemInput → DynamoDb S → Option TableAttributes → DynamoDb S × Reply Unit
  put_found input d none = (d, fails (no_table input.put_name))
  put_found input d (some t) = put_keyed t.key_attributes input d

  unfoldable pub put_item : PutItemInput → DynamoDb S → DynamoDb S × Reply Unit
  unfolding lookup bytes_eq
  put_item input d =
      if bytes_eq input.put_name []
      then (d, fails table_name_required)
      else put_found input d (lookup input.put_name d.table_attributes)

  abbrev pub scanned : Option Item → Reply Item
  scanned none = fails scan_mismatch
  scanned (some m) = done m

  -- QueryRow and Row.Scan: the first row, or the error that the query or the missing row stands for.
  abbrev pub first_item : List Bytes → Cursor → Reply Item
  first_item columns (refused e) = fails no_rows_found
  first_item columns (opened [] none) = fails no_row
  first_item columns (opened [] (some e)) = fails (database e)
  first_item columns (opened (row ∷ rows) ending) = scanned (read_item columns row)

  abbrev pub got : GetItemInput → DynamoDb S → S × Cursor → DynamoDb S × Reply Item
  got input d (s, cursor) =
      (record d { db_conn = s }, first_item (split_comma input.get_projection) cursor)

  abbrev pub get_keyed : KeyAttributes → GetItemInput → DynamoDb S → DynamoDb S × Reply Item
  get_keyed k input d =
      if is_nil k.sort_key
      then got input d (sql.select (get_statement print k input) (get_args k input) d.db_conn)
      else if is_text input.get_sort_key []
      then (d, fails (sort_key_required k.sort_key))
      else got input d (sql.select (get_statement print k input) (get_args k input) d.db_conn)

  abbrev pub get_found :
      GetItemInput → DynamoDb S → Option TableAttributes → DynamoDb S × Reply Item
  get_found input d none = (d, fails (no_table input.get_name))
  get_found input d (some t) = get_keyed t.key_attributes input d

  unfoldable pub get_item : GetItemInput → DynamoDb S → DynamoDb S × Reply Item
  unfolding lookup bytes_eq split_comma read_item
  get_item input d =
      if bytes_eq input.get_name [] || bytes_eq input.get_partition_key []
      then (d, fails table_and_key_required)
      else get_found input d (lookup input.get_name d.table_attributes)

  abbrev pub all_scanned : Option (List Item) → Reply (List Item)
  all_scanned none = fails scan_mismatch
  all_scanned (some ms) = done ms

  -- rows.Err is not asked for behind the loop.
  abbrev pub all_items : List Bytes → Cursor → Reply (List Item)
  all_items columns (refused e) = fails (database e)
  all_items columns (opened rows ending) = all_scanned (read_items columns rows)

  abbrev pub queried : QueryInput → DynamoDb S → S × Cursor → DynamoDb S × Reply (List Item)
  queried input d (s, cursor) =
      (record d { db_conn = s }, all_items (split_comma input.query_projection) cursor)

  abbrev pub query_by : QueryInput → DynamoDb S → SortKey → DynamoDb S × Reply (List Item)
  query_by input d (order_by k) =
      queried input d (sql.select (query_statement k input) (query_args input) d.db_conn)
  query_by input d (index_missing name) = (d, fails (no_index name input.query_name))
  query_by input d not_text = (d, panics)

  abbrev pub query_found :
      QueryInput → DynamoDb S → Option TableAttributes → DynamoDb S × Reply (List Item)
  query_found input d none = (d, fails (no_table input.query_name))
  query_found input d (some t) = query_by input d (effective_sort_key t input.index)

  unfoldable pub query : QueryInput → DynamoDb S → DynamoDb S × Reply (List Item)
  unfolding lookup bytes_eq effective_sort_key split_comma read_items
  query input d =
      if bytes_eq input.query_name [] || bytes_eq input.key_condition []
      then (d, fails table_and_key_required)
      else query_found input d (lookup input.query_name d.table_attributes)
