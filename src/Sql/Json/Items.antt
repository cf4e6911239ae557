-- ===== src/Sql/Json/Items.antt =====
-- The items of an array that JSON keeps.
use icedb.Sql.Json.{
  JsonNumber, JsonFormats, as_i64, value_to_json_value, values_to_json, json_value_to_value,
  json_to_values,
}
use icedb.Sql.Value.{Value, Values, DataType}
use icedb.Base.{
  nat_key, inl, inr, refl, arith, ◌≡◌, signed32, Bool, signed64, word64, ℕ, ◌<◌, ◌^◌, List,
  Bool-cases, ◌%◌, ltb, ap, ap₂,
}

mutual
  -- NULL, a truth value, an integer, a text or an array of such, of the type.
  pub data IsItem : DataType → Value → Type 0 where
    null : (d : DataType) → IsItem d Value.null
    boolean : (b : Bool) → IsItem DataType.boolean (Value.bool b)
    int4 : (v : ℕ) → v < 2 ^ 32 → IsItem DataType.int4 (Value.int4 v)
    int8 : (v : ℕ) → v < 2 ^ 64 → IsItem DataType.int8 (Value.int8 v)
    text : (s : List ℕ) → IsItem DataType.text (Value.text s)
    var_char : (n : ℕ) (s : List ℕ) → IsItem (DataType.var_char n) (Value.text s)
    array :
        (d : DataType) (vs : Values) → AreItems d vs → IsItem (DataType.array d) (Value.array vs)

  pub data AreItems : DataType → Values → Type 0 where
    no_items : (d : DataType) → AreItems d Values.nil
    item :
        (d : DataType) (v : Value) (vs : Values)
        → IsItem d v
        → AreItems d vs
        → AreItems d (Values.cons v vs)

as_i64-signed32 : (v : ℕ) → v < 2 ^ 32 → as_i64 (JsonNumber.integer (signed32 v)) % 2 ^ 32 ≡ v
unfolding word64
as_i64-signed32 v h = elim (Bool-cases (ltb v (2 ^ 31))) [
  | inl low ↦ rw low (ground (arith, low))
  | inr high ↦ rw high (ground (arith, h, high))
]

as_i64-signed64 : (v : ℕ) → v < 2 ^ 64 → as_i64 (JsonNumber.integer (signed64 v)) ≡ v
unfolding word64
as_i64-signed64 v h = elim (Bool-cases (ltb v (2 ^ 63))) [
  | inl low ↦ rw low (ground (arith, low))
  | inr high ↦ rw high (ground (arith, h, high))
]

module _ (formats : JsonFormats) where
  mutual
    unfolding value_to_json_value json_value_to_value

    item_kept :
        (d : DataType) (v : Value)
        → IsItem d v
        → json_value_to_value formats (value_to_json_value formats v) d ≡ v
    item_kept d v (IsItem.null e) = refl
    item_kept d v (IsItem.boolean b) = refl
    item_kept d v (IsItem.int4 w h) = ap Value.int4 (as_i64-signed32 w h)
    item_kept d v (IsItem.int8 w h) = ap Value.int8 (as_i64-signed64 w h)
    item_kept d v (IsItem.text s) = refl
    item_kept d v (IsItem.var_char n s) = refl
    item_kept d v (IsItem.array e vs h) = ap Value.array (items_kept e vs h)

    -- Such items are read back as they were printed.
    pub items_kept :
        (d : DataType) (vs : Values)
        → AreItems d vs
        → json_to_values formats (values_to_json formats vs) d ≡ vs
    items_kept d vs (AreItems.no_items e) = refl
    items_kept d vs (AreItems.item e v ws h k) =
        ap₂ (λ a b. Values.cons a b) (item_kept e v h) (items_kept e ws k)
