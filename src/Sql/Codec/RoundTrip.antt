-- ===== src/Sql/Codec/RoundTrip.antt =====
-- A row written and read back, also by a table that has more columns by now, and the NULL that the
-- bitmap has no bit for.
use icedb.Sql.Value.{Value, DataType}
use icedb.Sql.Bytes.{TextFormats}
use icedb.Sql.Codec.{
  Column, decode_columns, row_bytes, decode_column, is_null, width, decode_fixed, decode_sized,
  decode_row, encode_row, bitmap_from,
}
use icedb.Sql.Codec.Fields.{HasType, decode_column-to_bytes}
use icedb.Sql.Codec.Bitmap.{
  NullsFit, bits_from, next_bits, marked_null-is_null, div_next, NullsFit-append_value,
  bitmap_from_skip, bitmap_from-zero,
}
use icedb.Base.{
  nat_key, [], ◌∷◌, false, inl, inr, ok, refl, arith, ◌≡◌, ◌+◌, replicate, List, ℕ, ◌⊎◌, ◌/◌, ◌^◌,
  ◌++◌, length, ◌≤◌, ap₂, append_assoc,
}

module _ (formats : TextFormats) where
  -- The row of a table's columns: each value is NULL or of the column's type.
  abbrev pub IsRow : List Column → List Value → Type 0
  IsRow [] [] = Unit {0}
  IsRow [] (v ∷ vs) = ⊥
  IsRow (c ∷ cs) [] = ⊥
  IsRow (c ∷ cs) (v ∷ vs) = ((v ≡ Value.null) ⊎ HasType formats c.data_type v) × IsRow cs vs

  HasType-not_null : {d : DataType} {v : Value} → HasType formats d v → is_null v ≡ false
  HasType-not_null (HasType.boolean b) = refl
  HasType-not_null (HasType.int4 v h) = refl
  HasType-not_null (HasType.int8 v h) = refl
  HasType-not_null (HasType.float8 v h) = refl
  HasType-not_null (HasType.date v h) = refl
  HasType-not_null (HasType.timestamp v h) = refl
  HasType-not_null (HasType.timestamp_tz v h) = refl
  HasType-not_null (HasType.text s h u) = refl
  HasType-not_null (HasType.var_char n s h u) = refl
  HasType-not_null (HasType.numeric s h u) = refl
  HasType-not_null (HasType.uuid s h u) = refl
  HasType-not_null (HasType.json s h u) = refl
  HasType-not_null (HasType.jsonb s h u) = refl
  HasType-not_null (HasType.bytea b h) = refl
  HasType-not_null (HasType.array d vs h k) = refl

  -- A column behind the end of a tuple's bytes is NULL.
  decode_column-nil : (d : DataType) → decode_column formats d [] ≡ ok (Value.null, [])
  unfolding decode_column width decode_fixed decode_sized
  decode_column-nil (DataType.boolean) = refl
  decode_column-nil (DataType.int4) = refl
  decode_column-nil (DataType.int8) = refl
  decode_column-nil (DataType.float8) = refl
  decode_column-nil (DataType.text) = refl
  decode_column-nil (DataType.var_char n) = refl
  decode_column-nil (DataType.bytea) = refl
  decode_column-nil (DataType.date) = refl
  decode_column-nil (DataType.timestamp) = refl
  decode_column-nil (DataType.timestamp_tz) = refl
  decode_column-nil (DataType.numeric) = refl
  decode_column-nil (DataType.uuid) = refl
  decode_column-nil (DataType.array d) = refl
  decode_column-nil (DataType.json) = refl
  decode_column-nil (DataType.jsonb) = refl

  decode_added :
      (bitmap i : ℕ) (cs : List Column)
      → bitmap / 2 ^ i ≡ 0
      → decode_columns formats bitmap i cs [] ≡ ok (replicate (length cs) Value.null)
  unfolding decode_columns replicate
  decode_added bitmap i [] h = refl
  decode_added bitmap i (c ∷ cs) h =
      ground
        (arith, decode_column-nil c.data_type, decode_added bitmap (i + 1) cs, div_next bitmap i)

  decode_columns-row_bytes :
      (bitmap i : ℕ) (cs added : List Column) (vs : List Value)
      → bitmap / 2 ^ i ≡ bits_from i vs
      → NullsFit i vs
      → IsRow cs vs
      → decode_columns formats bitmap i (cs ++ added) (row_bytes formats vs)
        ≡ ok (vs ++ replicate (length added) Value.null)
  unfolding decode_columns row_bytes bits_from
  decode_columns-row_bytes bitmap i [] added [] b n r = decode_added bitmap i added b
  decode_columns-row_bytes bitmap i [] added (v ∷ vs) b n r = absurd r
  decode_columns-row_bytes bitmap i (c ∷ cs) added [] b n r = absurd r
  decode_columns-row_bytes bitmap i (c ∷ cs) added (v ∷ vs) b n (inl e, r) = ground (
    arith,
    e,
    decode_columns-row_bytes bitmap (i + 1) cs added vs,
    marked_null-is_null bitmap i v vs b,
    next_bits bitmap i v vs b,
  )
  decode_columns-row_bytes bitmap i (c ∷ cs) added (v ∷ vs) b n (inr h, r) = ground (
    arith,
    HasType-not_null h,
    decode_column-to_bytes formats c.data_type v (row_bytes formats vs) h,
    decode_columns-row_bytes bitmap (i + 1) cs added vs,
    marked_null-is_null bitmap i v vs b,
    next_bits bitmap i v vs b,
  )

  -- A row whose NULLs stand in the first 32 columns is read back as it was written, and the columns
  -- that the table has got since then are read as NULL. Each value is NULL or of its column's type, in
  -- its Rust type's range; texts are UTF-8 and, like bytes, shorter than 2 ^ 32 bytes. The items of an
  -- array are truth values, integers, texts, NULLs or arrays of such, and serde_json reads back the
  -- text that it prints of them.
  pub decode_row-encode_row :
      (columns added : List Column) (values : List Value)
      → NullsFit 0 values
      → IsRow columns values
      → decode_row formats
          (encode_row formats values).0
          (encode_row formats values).1
          (columns ++ added)
        ≡ ok (values ++ replicate (length added) Value.null)
  unfolding decode_row encode_row
  decode_row-encode_row columns added values n r =
      decode_columns-row_bytes (bitmap_from 0 values) 0 columns added values
        (bitmap_from-zero values) n r

  row_bytes_skip :
      (pre post : List Value)
      → row_bytes formats (pre ++ (Value.null ∷ post)) ≡ row_bytes formats (pre ++ post)
  unfolding row_bytes
  row_bytes_skip [] post = refl
  row_bytes_skip (v ∷ pre) post = ground (arith, row_bytes_skip pre post)

  -- A NULL behind 32 columns leaves no trace: the row without that value has the same bytes and
  -- the same bitmap.
  pub late_null_lost :
      (pre post : List Value)
      → 32 ≤ length pre
      → encode_row formats (pre ++ (Value.null ∷ post)) ≡ encode_row formats (pre ++ post)
  unfolding encode_row
  late_null_lost pre post h =
      ap₂ (λ (bs : List ℕ) (n : ℕ). (bs, n)) (row_bytes_skip pre post)
        (bitmap_from_skip 0 pre post (omega arith))

  IsRow-append_value :
      (cs : List Column) (vs : List Value) (c : Column) (v : Value)
      → IsRow cs vs
      → HasType formats c.data_type v
      → IsRow (cs ++ (c ∷ [])) (vs ++ (v ∷ []))
  IsRow-append_value [] [] c v r h = (inr h, tt)
  IsRow-append_value [] (x ∷ vs) c v r h = absurd r
  IsRow-append_value (d ∷ cs) [] c v r h = absurd r
  IsRow-append_value (d ∷ cs) (x ∷ vs) c v r h = (r.0, IsRow-append_value cs vs c v r.1 h)

  -- Where a row ends with a NULL and a value behind 32 columns or more, these columns have NULLs only
  -- among the first 32, and the value is of the NULL's column's type too, the two change places when
  -- the row is read.
  pub late_null_moves :
      (columns : List Column) (c d : Column) (pre : List Value) (v : Value)
      → 32 ≤ length pre
      → NullsFit 0 pre
      → IsRow columns pre
      → HasType formats c.data_type v
      → decode_row formats
          (encode_row formats (pre ++ (Value.null ∷ v ∷ []))).0
          (encode_row formats (pre ++ (Value.null ∷ v ∷ []))).1
          (columns ++ (c ∷ d ∷ []))
        ≡ ok (pre ++ (v ∷ Value.null ∷ []))
  unfolding replicate
  late_null_moves columns c d pre v h n r t =
      let read =
        decode_row-encode_row (columns ++ (c ∷ [])) (d ∷ []) (pre ++ (v ∷ []))
          (NullsFit-append_value 0 pre v n (HasType-not_null t))
          (IsRow-append_value columns pre c v r t) in
      rw
        (
          late_null_lost pre (v ∷ []) h,
          ← append_assoc columns (c ∷ []) (d ∷ []),
          ← append_assoc pre (v ∷ []) (Value.null ∷ []),
        )
        read
