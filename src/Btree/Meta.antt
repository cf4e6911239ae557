-- ===== src/Btree/Meta.antt =====
-- crates/btree/src/meta.rs: the record on page 0 of an index.
use icedb.Btree.Codec.{BtreeError, corrupt_meta}
use icedb.Base.{
  nat_key, true, ok, refl, arith, ◌>>◌, ◌≡◌, ◌<◌, ℕ, List, Outcome, to_le, ◌^◌, ◌++◌, slice, guard,
  from_le, replicate, leb, from_le-to_le, length, ◌==◌,
}

abbrev pub meta_page_no : ℕ
meta_page_no = 0

abbrev pub meta_magic : ℕ
meta_magic = 0xbee7_1cee

pub record BtreeMeta : Type 0 where
  pub root_page : ℕ
  pub height : ℕ
  pub num_entries : ℕ
  pub next_page : ℕ

unfoldable pub encode : BtreeMeta → List ℕ
encode m =
    to_le 4 meta_magic
    ++ (to_le 4 m.root_page
        ++ (to_le 4 m.height ++ (to_le 8 m.num_entries ++ (to_le 4 m.next_page ++ replicate 8 0))))

unfoldable pub decode : List ℕ → Outcome BtreeError BtreeMeta
decode buf = do
  guard (leb 32 (length buf)) corrupt_meta
  guard (from_le (slice buf 0 4) == meta_magic) corrupt_meta
  ok (record {
    root_page = from_le (slice buf 4 4);
    height = from_le (slice buf 8 4);
    num_entries = from_le (slice buf 12 8);
    next_page = from_le (slice buf 20 4);
  })

pub record IsWellFormed (m : BtreeMeta) : Type 0 where
  pub root_page : m.root_page < 2 ^ 32
  pub height : m.height < 2 ^ 32
  pub num_entries : m.num_entries < 2 ^ 64
  pub next_page : m.next_page < 2 ^ 32

module _ (m : BtreeMeta) (after : List ℕ) (w : IsWellFormed m) where
  magic_field : from_le (slice (encode m ++ after) 0 4) ≡ meta_magic
  unfolding encode slice to_le
  magic_field = from_le-to_le 4 meta_magic (omega arith)

  root_field : from_le (slice (encode m ++ after) 4 4) ≡ m.root_page
  unfolding encode slice to_le
  root_field = from_le-to_le 4 m.root_page w.root_page

  height_field : from_le (slice (encode m ++ after) 8 4) ≡ m.height
  unfolding encode slice to_le
  height_field = from_le-to_le 4 m.height w.height

  entries_field : from_le (slice (encode m ++ after) 12 8) ≡ m.num_entries
  unfolding encode slice to_le
  entries_field = from_le-to_le 8 m.num_entries w.num_entries

  next_field : from_le (slice (encode m ++ after) 20 4) ≡ m.next_page
  unfolding encode slice to_le
  next_field = from_le-to_le 4 m.next_page w.next_page

  long_enough : leb 32 (length (encode m ++ after)) ≡ true
  unfolding encode to_le replicate
  long_enough = ground arith

  -- The meta record is read back from its bytes, whatever stands behind them.
  pub decode-encode_meta : decode (encode m ++ after) ≡ ok m
  unfolding decode
  decode-encode_meta =
      rw (long_enough, magic_field, root_field, height_field, entries_field, next_field) refl
