-- ===== src/Sql/Order/Keys.antt =====
-- The keys of an index are ordered as the values of one type are.
use icedb.Btree.Node.{key_lt, cmp}
use icedb.Sql.Value.{Value, Values}
use icedb.Sql.Codec.{is_null}
use icedb.Sql.Order.{Floats, partial_cmp, encode_sort_key, compare_ℤ, to_be, flip64, flip32}
use icedb.Base.{
  nat_key, [], ◌∷◌, some, true, false, refl, arith, ◌≡◌, Bool, List, ℕ, ◌<◌, ap, ◌∙◌, ◌^◌, sym,
  signed64, signed32, ltb_ℤ,
}
use icedb.Sql.Order.Words.{key_lt-to_be, flip32-signed, flip64-signed}

-- Two values of one type whose order is that of their keys: no floats, numerics, arrays or documents.
pub data AreSortable : Value → Value → Type 0 where
  null : AreSortable Value.null Value.null
  null_first : (v : Value) → is_null v ≡ false → AreSortable Value.null v
  null_last : (v : Value) → is_null v ≡ false → AreSortable v Value.null
  bool : (a b : Bool) → AreSortable (Value.bool a) (Value.bool b)
  int4 : (a b : ℕ) → a < 2 ^ 32 → b < 2 ^ 32 → AreSortable (Value.int4 a) (Value.int4 b)
  int8 : (a b : ℕ) → a < 2 ^ 64 → b < 2 ^ 64 → AreSortable (Value.int8 a) (Value.int8 b)
  date : (a b : ℕ) → a < 2 ^ 32 → b < 2 ^ 32 → AreSortable (Value.date a) (Value.date b)
  timestamp :
      (a b : ℕ) → a < 2 ^ 64 → b < 2 ^ 64 → AreSortable (Value.timestamp a) (Value.timestamp b)
  text : (a b : List ℕ) → AreSortable (Value.text a) (Value.text b)
  bytes : (a b : List ℕ) → AreSortable (Value.bytes a) (Value.bytes b)
  uuid : (a b : List ℕ) → AreSortable (Value.uuid a) (Value.uuid b)

key_lt-flip32 :
    (a b : ℕ)
    → a < 2 ^ 32
    → b < 2 ^ 32
    → key_lt (to_be 4 (flip32 a)) (to_be 4 (flip32 b)) ≡ ltb_ℤ (signed32 a) (signed32 b)
key_lt-flip32 a b ha hb =
    key_lt-to_be 4 (flip32 a) (flip32 b) (omega arith) (omega arith) ∙ flip32-signed a b ha hb

key_lt-flip64 :
    (a b : ℕ)
    → a < 2 ^ 64
    → b < 2 ^ 64
    → key_lt (to_be 8 (flip64 a)) (to_be 8 (flip64 b)) ≡ ltb_ℤ (signed64 a) (signed64 b)
key_lt-flip64 a b ha hb =
    key_lt-to_be 8 (flip64 a) (flip64 b) (omega arith) (omega arith) ∙ flip64-signed a b ha hb

-- Behind the same tag the rest of two keys is compared.
cmp_tagged : (tag : ℕ) (a b : List ℕ) → cmp (tag ∷ a) (tag ∷ b) ≡ cmp a b
unfolding key_lt
cmp_tagged tag a b = ground arith

cmp-flip32 :
    (a b : ℕ)
    → a < 2 ^ 32
    → b < 2 ^ 32
    → compare_ℤ (signed32 a) (signed32 b) ≡ cmp (to_be 4 (flip32 a)) (to_be 4 (flip32 b))
cmp-flip32 a b ha hb = rw (key_lt-flip32 a b ha hb, key_lt-flip32 b a hb ha) refl

cmp-flip64 :
    (a b : ℕ)
    → a < 2 ^ 64
    → b < 2 ^ 64
    → compare_ℤ (signed64 a) (signed64 b) ≡ cmp (to_be 8 (flip64 a)) (to_be 8 (flip64 b))
cmp-flip64 a b ha hb = rw (key_lt-flip64 a b ha hb, key_lt-flip64 b a hb ha) refl

module _ (floats : Floats) (display : Values → List ℕ) where
  cmp-null_first :
      (v : Value)
      → is_null v ≡ false
      → partial_cmp floats Value.null v ≡ some (cmp (0 ∷ []) (encode_sort_key display v))
  unfolding partial_cmp encode_sort_key key_lt
  cmp-null_first Value.null h = absurd (ground (arith, h))
  cmp-null_first v h = refl

  cmp-null_last :
      (v : Value)
      → is_null v ≡ false
      → partial_cmp floats v Value.null ≡ some (cmp (encode_sort_key display v) (0 ∷ []))
  unfolding partial_cmp encode_sort_key key_lt
  cmp-null_last Value.null h = absurd (ground (arith, h))
  cmp-null_last v h = refl

  -- For two values of one type other than float, numeric, array and json, and for NULL, the keys are
  -- ordered as `partial_cmp` orders the values.
  pub cmp-encode_sort_key :
      (a b : Value)
      → AreSortable a b
      → partial_cmp floats a b ≡ some (cmp (encode_sort_key display a) (encode_sort_key display b))
  unfolding partial_cmp encode_sort_key
  cmp-encode_sort_key a b AreSortable.null = unfold key_lt in refl
  cmp-encode_sort_key a b (AreSortable.null_first v h) = cmp-null_first v h
  cmp-encode_sort_key a b (AreSortable.null_last v h) = cmp-null_last v h
  cmp-encode_sort_key a b (AreSortable.bool true true) = unfold key_lt in refl
  cmp-encode_sort_key a b (AreSortable.bool true false) = unfold key_lt in refl
  cmp-encode_sort_key a b (AreSortable.bool false true) = unfold key_lt in refl
  cmp-encode_sort_key a b (AreSortable.bool false false) = unfold key_lt in refl
  cmp-encode_sort_key a b (AreSortable.int4 x y hx hy) =
      ap some (cmp-flip32 x y hx hy ∙ sym (cmp_tagged 2 (to_be 4 (flip32 x)) (to_be 4 (flip32 y))))
  cmp-encode_sort_key a b (AreSortable.int8 x y hx hy) =
      ap some (cmp-flip64 x y hx hy ∙ sym (cmp_tagged 3 (to_be 8 (flip64 x)) (to_be 8 (flip64 y))))
  cmp-encode_sort_key a b (AreSortable.date x y hx hy) =
      ap some (cmp-flip32 x y hx hy ∙ sym (cmp_tagged 7 (to_be 4 (flip32 x)) (to_be 4 (flip32 y))))
  cmp-encode_sort_key a b (AreSortable.timestamp x y hx hy) =
      ap some (cmp-flip64 x y hx hy ∙ sym (cmp_tagged 8 (to_be 8 (flip64 x)) (to_be 8 (flip64 y))))
  cmp-encode_sort_key a b (AreSortable.text x y) = ap some (sym (cmp_tagged 5 x y))
  cmp-encode_sort_key a b (AreSortable.bytes x y) = ap some (sym (cmp_tagged 6 x y))
  cmp-encode_sort_key a b (AreSortable.uuid x y) = ap some (sym (cmp_tagged 10 x y))
