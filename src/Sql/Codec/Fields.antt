-- ===== src/Sql/Codec/Fields.antt =====
-- Values of a column's type, and the bytes of one value in front of others.

use icedb.Sql.Value.{DataType, Value, bool_byte, Values}
use icedb.Sql.Bytes.{
  TextFormats, to_bytes, from_bytes, with_length, read_word, read_length, read_text, read_array,
}
use icedb.Sql.Json.{Json, values_to_json}
use icedb.Base.{
  nat_key, [], ◌∷◌, true, false, ok, refl, arith, ◌≡◌, ◌+◌, List, Bool, ℕ, length, ◌<◌, from_le,
  ◌^◌, drop, take, length-append, to_le, subst, ◌++◌, length-to_le, append-nil, append_assoc,
  drop-append, ◌%◌, take-append, from_le-to_le, ◌∙◌, ltb, some,
}
use icedb.Sql.Codec.{decode_fixed, decode_sized, decode_column, width}
use icedb.Sql.Json.Items.{AreItems, items_kept}

abbrev pub IsSized : List ℕ → Type 0
IsSized s = length s < 2 ^ 32

module _ (formats : TextFormats) where
  open formats use {is_utf8, documents}

  -- A value that is not NULL, of the type, and in the range of its Rust type.
  pub data HasType : DataType → Value → Type 0 where
    boolean : (b : Bool) → HasType DataType.boolean (Value.bool b)
    int4 : (v : ℕ) → v < 2 ^ 32 → HasType DataType.int4 (Value.int4 v)
    int8 : (v : ℕ) → v < 2 ^ 64 → HasType DataType.int8 (Value.int8 v)
    float8 : (v : ℕ) → v < 2 ^ 64 → HasType DataType.float8 (Value.float8 v)
    date : (v : ℕ) → v < 2 ^ 32 → HasType DataType.date (Value.date v)
    timestamp : (v : ℕ) → v < 2 ^ 64 → HasType DataType.timestamp (Value.timestamp v)
    timestamp_tz : (v : ℕ) → v < 2 ^ 64 → HasType DataType.timestamp_tz (Value.timestamp v)
    text : (s : List ℕ) → IsSized s → is_utf8 s ≡ true → HasType DataType.text (Value.text s)
    var_char :
        (n : ℕ) (s : List ℕ)
        → IsSized s
        → is_utf8 s ≡ true
        → HasType (DataType.var_char n) (Value.text s)
    numeric :
        (s : List ℕ) → IsSized s → is_utf8 s ≡ true → HasType DataType.numeric (Value.numeric s)
    uuid : (s : List ℕ) → IsSized s → is_utf8 s ≡ true → HasType DataType.uuid (Value.uuid s)
    json : (s : List ℕ) → IsSized s → is_utf8 s ≡ true → HasType DataType.json (Value.json s)
    jsonb : (s : List ℕ) → IsSized s → is_utf8 s ≡ true → HasType DataType.jsonb (Value.json s)
    bytea : (b : List ℕ) → IsSized b → HasType DataType.bytea (Value.bytes b)
    array :
        (inner : DataType) (vs : Values)
        → (let document = Json.array (values_to_json documents vs) in
            IsSized (documents.json_text document)
            × (is_utf8 (documents.json_text document) ≡ true)
            × (documents.parse_json (documents.json_text document) ≡ some document))
        → AreItems inner vs
        → HasType (DataType.array inner) (Value.array vs)

take_front : (n : ℕ) (bs rest : List ℕ) → length bs ≡ n → take n (bs ++ rest) ≡ bs
take_front n bs rest e = subst (λ (k : ℕ). take k (bs ++ rest) ≡ bs) e (take-append bs rest)

drop_front : (n : ℕ) (bs rest : List ℕ) → length bs ≡ n → drop n (bs ++ rest) ≡ rest
drop_front n bs rest e = subst (λ (k : ℕ). drop k (bs ++ rest) ≡ rest) e (drop-append bs rest)

take_whole : (n : ℕ) (bs : List ℕ) → length bs ≡ n → take n bs ≡ bs
take_whole n bs e = subst (λ (xs : List ℕ). take n xs ≡ bs) (append-nil bs) (take_front n bs [] e)

read_word-to_le :
    (n v : ℕ) (make : ℕ → Value) → v < 256 ^ n → read_word n (to_le n v) make ≡ ok (make v)
unfolding read_word
read_word-to_le n v make h =
    rw (take_whole n (to_le n v) (length-to_le n v), from_le-to_le n v h, length-to_le n v)
      (ground arith)

length-with_length : (s : List ℕ) → length (with_length s) ≡ 4 + length s
unfolding with_length
length-with_length s =
    omega (arith, length-append (to_le 4 (length s % 2 ^ 32)) s, length-to_le 4 (length s % 2 ^ 32))

-- The length in front of a text and more bytes.
front_length : (s rest : List ℕ) → IsSized s → from_le (take 4 (with_length s ++ rest)) ≡ length s
unfolding with_length
front_length s rest h =
    rw
      (
        append_assoc (to_le 4 (length s % 2 ^ 32)) s rest,
        take_front 4 (to_le 4 (length s % 2 ^ 32)) (s ++ rest) (length-to_le 4 _),
      )
      (from_le-to_le 4 (length s % 2 ^ 32) (omega arith) ∙ omega arith)

drop-with_length : (s : List ℕ) → drop 4 (with_length s) ≡ s
unfolding with_length
drop-with_length s = drop_front 4 (to_le 4 (length s % 2 ^ 32)) s (length-to_le 4 _)

own_length : (s : List ℕ) → IsSized s → from_le (take 4 (with_length s)) ≡ length s
own_length s h =
    subst (λ (xs : List ℕ). from_le (take 4 xs) ≡ length s) (append-nil (with_length s))
      (front_length s [] h)

read_length-with_length : (s : List ℕ) → IsSized s → read_length (with_length s) ≡ ok s
unfolding read_length
read_length-with_length s h =
    rw (own_length s h, length-with_length s, drop-with_length s, take_whole (length s) s refl)
      (ground arith)

module _ (formats : TextFormats) where
  open formats use {is_utf8, documents}

  read_text-with_length :
      (s : List ℕ) (make : List ℕ → Value)
      → IsSized s
      → is_utf8 s ≡ true
      → read_text formats (with_length s) make ≡ ok (make s)
  unfolding read_text
  read_text-with_length s make h u = rw (read_length-with_length s h, u) refl

  -- A value's bytes read back as the value.
  pub from_bytes-to_bytes :
      (d : DataType) (v : Value)
      → HasType formats d v
      → from_bytes formats (to_bytes formats v) d ≡ ok v
  unfolding from_bytes to_bytes read_array
  from_bytes-to_bytes d v (HasType.boolean true) = refl
  from_bytes-to_bytes d v (HasType.boolean false) = refl
  from_bytes-to_bytes d v (HasType.int4 w h) = read_word-to_le 4 w Value.int4 h
  from_bytes-to_bytes d v (HasType.int8 w h) = read_word-to_le 8 w Value.int8 h
  from_bytes-to_bytes d v (HasType.float8 w h) = read_word-to_le 8 w Value.float8 h
  from_bytes-to_bytes d v (HasType.date w h) = read_word-to_le 4 w Value.date h
  from_bytes-to_bytes d v (HasType.timestamp w h) = read_word-to_le 8 w Value.timestamp h
  from_bytes-to_bytes d v (HasType.timestamp_tz w h) = read_word-to_le 8 w Value.timestamp h
  from_bytes-to_bytes d v (HasType.text s h u) = read_text-with_length s Value.text h u
  from_bytes-to_bytes d v (HasType.var_char n s h u) = read_text-with_length s Value.text h u
  from_bytes-to_bytes d v (HasType.numeric s h u) = read_text-with_length s Value.numeric h u
  from_bytes-to_bytes d v (HasType.uuid s h u) = read_text-with_length s Value.uuid h u
  from_bytes-to_bytes d v (HasType.json s h u) = read_text-with_length s Value.json h u
  from_bytes-to_bytes d v (HasType.jsonb s h u) = read_text-with_length s Value.json h u
  from_bytes-to_bytes d v (HasType.bytea b h) = rw (read_length-with_length b h) refl
  from_bytes-to_bytes d v (HasType.array inner vs (h, u, e) k) =
      rw
        (
          read_length-with_length (documents.json_text (Json.array (values_to_json documents vs)))
              h,
          u,
          e,
          items_kept documents inner vs k,
        )
        refl

  decode_fixed-append :
      (d : DataType) (n : ℕ) (bs rest : List ℕ) (v : Value)
      → length bs ≡ n
      → from_bytes formats bs d ≡ ok v
      → decode_fixed formats d n (bs ++ rest) ≡ ok (v, rest)
  unfolding decode_fixed
  decode_fixed-append d n bs rest v e f =
      let enough : ltb (length (bs ++ rest)) n ≡ false = ground (arith, length-append bs rest) in
      rw (enough, take_front n bs rest e, drop_front n bs rest e, f) refl

  decode_sized-append :
      (d : DataType) (s rest : List ℕ) (v : Value)
      → IsSized s
      → from_bytes formats (with_length s) d ≡ ok v
      → decode_sized formats d (with_length s ++ rest) ≡ ok (v, rest)
  unfolding decode_sized
  decode_sized-append d s rest v h f =
      let total : length (with_length s ++ rest) ≡ 4 + length s + length rest =
        omega (arith, length-append (with_length s) rest, length-with_length s) in
      let head : ltb (length (with_length s ++ rest)) 4 ≡ false = ground (arith, total) in
      let whole : ltb (length (with_length s ++ rest)) (4 + length s) ≡ false =
        ground (arith, total) in
      rw
        (
          head,
          front_length s rest h,
          whole,
          take_front (4 + length s) (with_length s) rest (length-with_length s),
          drop_front (4 + length s) (with_length s) rest (length-with_length s),
          f,
        )
        refl

  -- The column of a value in front of more bytes gives the value and those bytes.
  pub decode_column-to_bytes :
      (d : DataType) (v : Value) (rest : List ℕ)
      → HasType formats d v
      → decode_column formats d (to_bytes formats v ++ rest) ≡ ok (v, rest)
  unfolding decode_column width to_bytes
  decode_column-to_bytes d v rest (HasType.int4 w h) =
      let f = from_bytes-to_bytes d v (HasType.int4 w h) in
      decode_fixed-append d 4 (to_le 4 w) rest v (length-to_le 4 w) f
  decode_column-to_bytes d v rest (HasType.int8 w h) =
      let f = from_bytes-to_bytes d v (HasType.int8 w h) in
      decode_fixed-append d 8 (to_le 8 w) rest v (length-to_le 8 w) f
  decode_column-to_bytes d v rest (HasType.float8 w h) =
      let f = from_bytes-to_bytes d v (HasType.float8 w h) in
      decode_fixed-append d 8 (to_le 8 w) rest v (length-to_le 8 w) f
  decode_column-to_bytes d v rest (HasType.date w h) =
      let f = from_bytes-to_bytes d v (HasType.date w h) in
      decode_fixed-append d 4 (to_le 4 w) rest v (length-to_le 4 w) f
  decode_column-to_bytes d v rest (HasType.timestamp w h) =
      let f = from_bytes-to_bytes d v (HasType.timestamp w h) in
      decode_fixed-append d 8 (to_le 8 w) rest v (length-to_le 8 w) f
  decode_column-to_bytes d v rest (HasType.timestamp_tz w h) =
      let f = from_bytes-to_bytes d v (HasType.timestamp_tz w h) in
      decode_fixed-append d 8 (to_le 8 w) rest v (length-to_le 8 w) f
  decode_column-to_bytes d v rest (HasType.boolean b) =
      let f = from_bytes-to_bytes d v (HasType.boolean b) in
      decode_fixed-append d 1 (bool_byte b ∷ []) rest v refl f
  decode_column-to_bytes d v rest (HasType.text s h u) =
      let f = from_bytes-to_bytes d v (HasType.text s h u) in decode_sized-append d s rest v h f
  decode_column-to_bytes d v rest (HasType.numeric s h u) =
      let f = from_bytes-to_bytes d v (HasType.numeric s h u) in decode_sized-append d s rest v h f
  decode_column-to_bytes d v rest (HasType.uuid s h u) =
      let f = from_bytes-to_bytes d v (HasType.uuid s h u) in decode_sized-append d s rest v h f
  decode_column-to_bytes d v rest (HasType.json s h u) =
      let f = from_bytes-to_bytes d v (HasType.json s h u) in decode_sized-append d s rest v h f
  decode_column-to_bytes d v rest (HasType.jsonb s h u) =
      let f = from_bytes-to_bytes d v (HasType.jsonb s h u) in decode_sized-append d s rest v h f
  decode_column-to_bytes d v rest (HasType.var_char n s h u) =
      let f = from_bytes-to_bytes d v (HasType.var_char n s h u) in
      decode_sized-append d s rest v h f
  decode_column-to_bytes d v rest (HasType.bytea b h) =
      let f = from_bytes-to_bytes d v (HasType.bytea b h) in decode_sized-append d b rest v h f
  decode_column-to_bytes d v rest (HasType.array inner vs (h, u, e) k) =
      let f = from_bytes-to_bytes d v (HasType.array inner vs (h, u, e) k) in
      decode_sized-append d (documents.json_text (Json.array (values_to_json documents vs))) rest v
        h f
