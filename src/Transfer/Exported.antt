-- ===== src/Transfer/Exported.antt =====
-- A bundle that was exported is accepted, and holds the rows of the source.
use glassops.Prelude.{
  ◌≡◌, refl, ap, ℕ, String, Bool, true, some, List, [], ◌∷◌, map, length, all, contains, ◌==◌,
  arith, string_eq, nat_eq,
}
use glassops.Prelude.Dict
use glassops.Prelude.Dict.{Dict, keys}
use glassops.Json.{Json, null, int, float, str}
use glassops.Transfer.{
  Result, ok, first-of_ok, Cell, null_cell, integer, real, infinity, text, blob, SqlRow,
  preserved_tables, columns, Database, Outside, TableEntry, Bundle, encode_value, decode_value,
  map_all, rows_in, same_columns, entry_of, read_table, read_entries, export_bundle, valid_entry,
  valid_table, validate_manifest, validate_bundle,
}
use glassops.Transfer.Restore.{decode_tables}
use glassops.Transfer.Restored.{read_entries-lookup, export_bundle-parts}

decode-encode_value : (c : Cell) {j : Json} → encode_value c ≡ ok j → decode_value j ≡ ok c
unfolding encode_value decode_value
decode-encode_value null_cell {j} encoded =
    let same : j ≡ null = ground arith in ground (arith, same)
decode-encode_value (text s) {j} encoded =
    let same : j ≡ str s = ground arith in ground (arith, same)
decode-encode_value (integer n) {j} encoded =
    let same : j ≡ int n = ground arith in ground (arith, same)
decode-encode_value (real n) {j} encoded =
    let same : j ≡ float n = ground arith in ground (arith, same)
decode-encode_value infinity encoded = absurd (ground arith)
decode-encode_value blob encoded = absurd (ground arith)

-- What is undone value by value is undone as a list.
map_all-map_all :
    {A B : Type 0} (f : A → Result B) (g : B → Result A)
    → ((x : A) (y : B) → f x ≡ ok y → g y ≡ ok x)
    → (xs : List A) (ys : List B) → map_all f xs ≡ ok ys
    → (map_all g ys ≡ ok xs) × (length ys ≡ length xs)
unfolding map_all
map_all-map_all f g undone [] ys mapped =
    let empty : [] ≡ ys = ground arith in rw⁻¹ empty (refl, refl)
map_all-map_all f g undone (x ∷ xs) ys mapped =
    let (y, first, more) = first-of_ok (f x) _ mapped in
    let (rest, others, whole) = first-of_ok (map_all f xs) _ more in
    let same : ys ≡ y ∷ rest = ground arith in
    let (back, len) = map_all-map_all f g undone xs rest others in
    (ground (arith, same, undone x y first, back), ground (arith, same, len))

decode-encode_row :
    (row : SqlRow) (js : List Json)
    → map_all encode_value row ≡ ok js
    → (map_all decode_value js ≡ ok row) × (length js ≡ length row)
decode-encode_row row js encoded =
    map_all-map_all encode_value decode_value (λ c j. decode-encode_value c) row js encoded

encode_rows-widths :
    (n : ℕ) (rows : List SqlRow) (jss : List (List Json))
    → map_all (map_all encode_value) rows ≡ ok jss
    → all (λ row. length row == n) rows ≡ true
    → all (λ row. length row == n) jss ≡ true
unfolding map_all
encode_rows-widths n [] jss encoded wide = let empty : jss ≡ [] = ground arith in rw empty refl
encode_rows-widths n (row ∷ rows) jss encoded wide =
    let (js, first, more) = first-of_ok (map_all encode_value row) _ encoded in
    let (rest, others, whole) = first-of_ok (map_all (map_all encode_value) rows) _ more in
    let same : jss ≡ js ∷ rest = ground arith in
    ground (arith, same, (decode-encode_row row js first).1, encode_rows-widths n rows rest others)

all-intro :
    (p : String → Bool) (xs : List String)
    → ((x : String) → contains xs x ≡ true → p x ≡ true)
    → all p xs ≡ true
all-intro p [] h = refl
all-intro p (x ∷ xs) h =
    ground (arith, h x, all-intro p xs (λ y there. h y (ground (arith, there))))

same_columns_self : (xs : List String) → same_columns xs xs ≡ true
same_columns_self [] = refl
same_columns_self (x ∷ xs) = ground (arith, same_columns_self xs)

preserved_known : all (contains preserved_tables) preserved_tables ≡ true
unfolding string_eq
preserved_known = refl

module _ (o : Outside) (source : Database) where
  -- The rows of a preserved table in the order in which they are exported.
  abbrev pub exported_rows : String → List SqlRow
  exported_rows table = o.in_key_order table (rows_in table source)

  -- Every row has the columns of its table.
  abbrev pub IsTabular : Type 0
  IsTabular =
      (table : String)
      → all (λ row. length row == length (columns table)) (exported_rows table) ≡ true

  read_entries-keys :
      (names : List String) {tables : Dict String TableEntry}
      → read_entries o names source ≡ ok tables
      → keys tables ≡ names
  unfolding read_entries
  read_entries-keys [] {tables} read = let same : tables ≡ [] = ground arith in rw same refl
  read_entries-keys (name ∷ rest) {tables} read =
      let (rows, first, more) = first-of_ok (read_table o name source) _ read in
      let (later, others, whole) = first-of_ok (read_entries o rest source) _ more in
      let same : tables ≡ (name, entry_of o name rows) ∷ later = ground arith in
      rw same (ap (λ ks. name ∷ ks) (read_entries-keys rest {tables = later} others))

  entry_of-valid :
      (table : String) (rows : List (List Json))
      → IsTabular
      → read_table o table source ≡ ok rows
      → valid_entry o table (entry_of o table rows) ≡ true
  unfolding valid_entry entry_of read_table
  entry_of-valid table rows tabular read = ground (
    arith,
    same_columns_self (columns table),
    encode_rows-widths (length (columns table)) (exported_rows table) rows read (tabular table),
  )

  decode_tables-exported :
      (names : List String) (tables : Dict String TableEntry)
      → ((table : String)
          → contains names table ≡ true
          → (rows : List (List Json)) × (read_table o table source ≡ ok rows)
            × (Dict.lookup table tables ≡ some (entry_of o table rows)))
      → decode_tables names tables ≡ ok (map (λ table. (table, exported_rows table)) names)
  unfolding decode_tables entry_of read_table
  decode_tables-exported [] tables listed = refl
  decode_tables-exported (name ∷ rest) tables listed =
      let (rows, read, found) = listed name (ground arith) in
      let back =
        (map_all-map_all (map_all encode_value) (map_all decode_value)
          (λ row js encoded. (decode-encode_row row js encoded).0) (exported_rows name) rows
          read).0 in
      let later =
        decode_tables-exported rest tables (λ table there. listed table (ground (arith, there))) in
      ground (arith, found, back, later)

  validate_bundle-exported :
      (secret manifest_sha : String) (b : Bundle)
      → export_bundle o source secret manifest_sha ≡ ok b
      → read_entries o preserved_tables source ≡ ok b.manifest.tables
      → all (valid_table o b.manifest.tables) preserved_tables ≡ true
      → all (contains preserved_tables) (keys b.manifest.tables) ≡ true
      → validate_bundle o b ≡ true
  unfolding export_bundle validate_bundle validate_manifest
  validate_bundle-exported secret manifest_sha b exported listed valid known = ground arith

  valid_table-exported :
      (tables : Dict String TableEntry) (table : String) (rows : List (List Json))
      → IsTabular
      → read_table o table source ≡ ok rows
      → Dict.lookup table tables ≡ some (entry_of o table rows)
      → valid_table o tables table ≡ true
  unfolding valid_table
  valid_table-exported tables table rows tabular read found =
      ground (arith, found, entry_of-valid table rows tabular read)

  -- A bundle that was exported passes every test of a restore, and decodes to the rows of the
  -- preserved tables of the source, in the order of their keys.
  pub export_bundle-accepted :
      (secret manifest_sha : String) {b : Bundle}
      → IsTabular
      → export_bundle o source secret manifest_sha ≡ ok b
      → (validate_bundle o b ≡ true)
        × (decode_tables preserved_tables b.manifest.tables
            ≡ ok (map (λ table. (table, exported_rows table)) preserved_tables))
  export_bundle-accepted secret manifest_sha {b} tabular exported =
      let (listed, _) = export_bundle-parts o source secret manifest_sha exported in
      let lookups = λ (table : String) (there : contains preserved_tables table ≡ true).
        read_entries-lookup o preserved_tables source table {tables = b.manifest.tables} listed
          there in
      let valid = all-intro (valid_table o b.manifest.tables) preserved_tables (λ table there.
        let (rows, read, found) = lookups table there in
        valid_table-exported b.manifest.tables table rows tabular read found) in
      let known : all (contains preserved_tables) (keys b.manifest.tables) ≡ true =
        rw (read_entries-keys preserved_tables {tables = b.manifest.tables} listed)
          preserved_known in
      (
        validate_bundle-exported secret manifest_sha b exported listed valid known,
        decode_tables-exported preserved_tables b.manifest.tables lookups,
      )
