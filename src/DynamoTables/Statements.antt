-- ===== src/DynamoTables/Statements.antt =====
-- relational-db/dynamo-db-implementation/dynamo/types.go, and the texts and arguments of the statements
-- that dynamo/dynamodb.go beside it sends to MySQL.
use design_pocs.Common.{
  ℕ, Bool, true, false, ◌||◌, none, some, List, [], ◌∷◌, ◌++◌, map, if◌then◌else◌, Bytes, bytes_eq,
  codes, bytes_key, lookup,
}
use design_pocs.DynamoTables.Text.{join}

-- A value of type interface{}: nil, a string, or a value of another type, such as a pointer.
pub data Any : Type 0 where
  nil : Any
  text : Bytes → Any
  other : ℕ → Any

pub record KeyAttributes : Type 0 where
  pub partition_key : Bytes
  pub sort_key : Any

pub record LocalSecondaryIndex : Type 0 where
  pub index_name : Bytes
  pub index_sort_key : Bytes

pub record TableAttributes : Type 0 where
  pub attributes_table : Bytes
  pub key_attributes : KeyAttributes
  pub indexes : List LocalSecondaryIndex

pub record CreateTableInput : Type 0 where
  pub create_name : Bytes
  pub attributes : List Bytes
  pub keys : KeyAttributes
  pub lsis : List LocalSecondaryIndex

-- A map is its pairs in the order in which the loop meets them.
pub record PutItemInput : Type 0 where
  pub put_name : Bytes
  pub put_keys : List (Bytes × Bytes)
  pub put_values : List (Bytes × Bytes)

pub record GetItemInput : Type 0 where
  pub get_name : Bytes
  pub get_partition_key : Bytes
  pub get_sort_key : Any
  pub get_projection : Bytes

pub record QueryInput : Type 0 where
  pub query_name : Bytes
  pub key_condition : Bytes
  pub key_values : List (Bytes × Bytes)
  pub query_projection : Bytes
  pub scan_index_forward : Bool
  pub index : Any

abbrev pub is_nil : Any → Bool
is_nil nil = true
is_nil (text s) = false
is_nil (other n) = false

-- v == s, for a string s
abbrev pub is_text : Any → Bytes → Bool
is_text nil s = false
is_text (text r) s = bytes_eq r s
is_text (other n) s = false

-- m[k], which is empty where the key is missing
abbrev pub value_at : Bytes → List (Bytes × Bytes) → Bytes
value_at k m = elim (lookup k m) [ none ↦ [] | some v ↦ v ]

-- `print` is what the verb %s writes for a value of another type.
module _ (print : ℕ → Bytes) where
  abbrev pub spelled : Any → Bytes
  spelled nil = codes "%!s(<nil>)"
  spelled (text s) = s
  spelled (other n) = print n

  abbrev pub sort_column : Any → Bytes
  sort_column nil = []
  sort_column k = spelled k ++ codes " VARCHAR(255) NOT NULL,"

  abbrev pub attribute_columns : KeyAttributes → List Bytes → Bytes
  attribute_columns k [] = []
  attribute_columns k (a ∷ rest) =
      let columns = attribute_columns k rest in
      if bytes_eq a k.partition_key || is_text k.sort_key a
      then columns
      else a ++ codes " VARCHAR(255)," ++ columns

  abbrev pub primary_key : Bytes → Any → Bytes
  primary_key p nil = codes " PRIMARY KEY (" ++ p ++ codes ")"
  primary_key p k = codes " PRIMARY KEY (" ++ p ++ codes ", " ++ spelled k ++ codes ")"

  abbrev pub index_clauses : Bytes → List LocalSecondaryIndex → Bytes
  index_clauses p [] = []
  index_clauses p (i ∷ rest) =
      codes ", INDEX "
      ++ i.index_name
      ++ codes " ("
      ++ p
      ++ codes ", "
      ++ i.index_sort_key
      ++ codes ")"
      ++ index_clauses p rest

  unfoldable pub create_statement : CreateTableInput → Bytes
  unfolding bytes_eq
  create_statement input =
      codes "CREATE TABLE IF NOT EXISTS "
      ++ input.create_name
      ++ codes " ( "
      ++ input.keys.partition_key
      ++ codes " VARCHAR(255) NOT NULL,"
      ++ sort_column input.keys.sort_key
      ++ attribute_columns input.keys input.attributes
      ++ primary_key input.keys.partition_key input.keys.sort_key
      ++ index_clauses input.keys.partition_key input.lsis
      ++ codes ");"

  abbrev pub and_sort_key : Any → Bytes
  and_sort_key nil = []
  and_sort_key k = codes " AND " ++ spelled k ++ codes " = ?"

  unfoldable pub get_statement : KeyAttributes → GetItemInput → Bytes
  get_statement k input =
      codes "SELECT "
      ++ input.get_projection
      ++ codes " FROM "
      ++ input.get_name
      ++ codes " WHERE "
      ++ k.partition_key
      ++ codes " = ?"
      ++ and_sort_key k.sort_key

unfoldable pub get_args : KeyAttributes → GetItemInput → List Any
get_args k input =
    text input.get_partition_key ∷ (if is_nil k.sort_key then [] else input.get_sort_key ∷ [])

-- What PutItem appends to its columns, its placeholders and its arguments for the sort key. A key that is
-- not a string has stopped it before.
abbrev pub sort_names : Any → List Bytes
sort_names nil = []
sort_names (text s) = s ∷ []
sort_names (other n) = []

abbrev pub sort_places : Any → List Bytes
sort_places nil = []
sort_places (text s) = codes "?" ∷ []
sort_places (other n) = []

abbrev pub sort_values : Any → List (Bytes × Bytes) → List Any
sort_values nil m = []
sort_values (text s) m = text (value_at s m) ∷ []
sort_values (other n) m = []

unfoldable pub put_columns : KeyAttributes → PutItemInput → List Bytes
put_columns k input = k.partition_key ∷ sort_names k.sort_key ++ map (λ p. p.0) input.put_values

unfoldable pub put_placeholders : KeyAttributes → PutItemInput → List Bytes
put_placeholders k input =
    codes "?" ∷ sort_places k.sort_key ++ map (λ p. codes "?") input.put_values

unfoldable pub put_args : KeyAttributes → PutItemInput → List Any
unfolding lookup bytes_eq
put_args k input =
    text (value_at k.partition_key input.put_keys) ∷ sort_values k.sort_key input.put_keys
    ++ map (λ p. text p.1) input.put_values

unfoldable pub put_statement : KeyAttributes → PutItemInput → Bytes
unfolding put_columns put_placeholders join
put_statement k input =
    codes "REPLACE INTO "
    ++ input.put_name
    ++ codes " ("
    ++ join (codes ", ") (put_columns k input)
    ++ codes ") VALUES ("
    ++ join (codes ", ") (put_placeholders k input)
    ++ codes ");"

abbrev pub order_clause : Bytes → Bool → Bytes
order_clause [] forward = []
order_clause k true = codes " ORDER BY " ++ k ++ codes " ASC"
order_clause k false = codes " ORDER BY " ++ k ++ codes " DESC"

unfoldable pub query_statement : Bytes → QueryInput → Bytes
query_statement sort_key input =
    codes "SELECT "
    ++ input.query_projection
    ++ codes " FROM "
    ++ input.query_name
    ++ codes " WHERE "
    ++ input.key_condition
    ++ order_clause sort_key input.scan_index_forward

unfoldable pub query_args : QueryInput → List Any
query_args input = map (λ p. text p.1) input.key_values
