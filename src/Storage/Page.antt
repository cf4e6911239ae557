-- ===== src/Storage/Page.antt =====
-- crates/storage/src/page.rs and the page errors of crates/storage/src/error.rs: an 8 kB slotted
-- page as its bytes. An index out of the page, which panics in Rust, is the outcome `panic`.
pub mod Fields
pub mod Inv
pub mod Insert
pub mod RoundTrip
pub mod Fresh
pub mod Delete
pub mod Overwrite
pub mod Header
pub mod Checksum
use Prim.Native.Nat.{bit_xor}
use icedb.Base.{
  ℕ, suc, ◌+◌, ◌-◌, ◌*◌, ◌/◌, ◌%◌, ◌^◌, Bool, true, false, ◌&&◌, ◌||◌, List, [], ◌∷◌, ltb, leb,
  ◌==◌, if◌then◌else◌, length, replicate, slice, splice, to_le, from_le, Outcome, ok, err, ◌>>=◌,
  ◌>>◌, guard, require,
}

abbrev pub page_size : ℕ
page_size = 8192

abbrev pub off_lsn : ℕ
off_lsn = 0

abbrev pub off_checksum : ℕ
off_checksum = 8

abbrev pub off_flags : ℕ
off_flags = 10

abbrev pub off_lower : ℕ
off_lower = 12

abbrev pub off_upper : ℕ
off_upper = 14

abbrev pub off_special : ℕ
off_special = 16

abbrev pub off_version : ℕ
off_version = 18

abbrev pub off_prune_xid : ℕ
off_prune_xid = 20

abbrev pub page_header_size : ℕ
page_header_size = 24

abbrev pub item_id_size : ℕ
item_id_size = 4

pub data PageError : Type 0 where
  insufficient_space : ℕ → ℕ → PageError
  slot_out_of_range : ℕ → PageError
  slot_dead : ℕ → PageError
  checksum_mismatch : PageError

unfoldable pub read_u16 : List ℕ → ℕ → ℕ
read_u16 buf off = from_le (slice buf off 2)

unfoldable pub write_u16 : List ℕ → ℕ → ℕ → List ℕ
write_u16 buf off v = splice buf off (to_le 2 v)

unfoldable pub write_u32 : List ℕ → ℕ → ℕ → List ℕ
write_u32 buf off v = splice buf off (to_le 4 v)

unfoldable pub read_u64 : List ℕ → ℕ → ℕ
read_u64 buf off = from_le (slice buf off 8)

unfoldable pub write_u64 : List ℕ → ℕ → ℕ → List ℕ
write_u64 buf off v = splice buf off (to_le 8 v)

pub record ItemId : Type 0 where
  pub lp_off : ℕ
  pub lp_len : ℕ

abbrev pub item_base : ℕ → ℕ
item_base slot = page_header_size + slot * item_id_size

-- The bytes of an item pointer that stands within the page.
unfoldable pub item_at : List ℕ → ℕ → ItemId
item_at buf slot = record {
  lp_off = read_u16 buf (item_base slot);
  lp_len = read_u16 buf (item_base slot + 2);
}

unfoldable pub read_item : List ℕ → ℕ → Outcome PageError ItemId
read_item buf slot =
    if leb (item_base slot + item_id_size) page_size then ok (item_at buf slot) else Outcome.panic

unfoldable pub write_item : List ℕ → ℕ → ItemId → Outcome PageError (List ℕ)
write_item buf slot item =
    if leb (item_base slot + item_id_size) page_size
    then ok
        (write_u16 (write_u16 buf (item_base slot) item.lp_off) (item_base slot + 2) item.lp_len)
    else Outcome.panic

unfoldable pub is_dead : ItemId → Bool
is_dead item = item.lp_off == 0 && item.lp_len == 0

pub record Page : Type 0 where
  pub bytes : List ℕ

unfoldable pub init_header : Page → Page
init_header p =
    let b = write_u64 p.bytes off_lsn 0 in
    let b1 = write_u16 b off_checksum 0 in
    let b2 = write_u16 b1 off_flags 0 in
    let b3 = write_u16 b2 off_lower page_header_size in
    let b4 = write_u16 b3 off_upper page_size in
    let b5 = write_u16 b4 off_special page_size in
    let b6 = write_u16 b5 off_version 1 in record { bytes = write_u32 b6 off_prune_xid 0 }

unfoldable pub new : Page
new = init_header (record { bytes = replicate page_size 0 })

unfoldable pub lsn : Page → ℕ
lsn p = read_u64 p.bytes off_lsn

unfoldable pub set_lsn : Page → ℕ → Page
set_lsn p v = record { bytes = write_u64 p.bytes off_lsn v }

unfoldable pub checksum : Page → ℕ
checksum p = read_u16 p.bytes off_checksum

unfoldable pub set_checksum : Page → ℕ → Page
set_checksum p v = record { bytes = write_u16 p.bytes off_checksum v }

unfoldable pub pd_lower : Page → ℕ
pd_lower p = read_u16 p.bytes off_lower

unfoldable pub set_pd_lower : Page → ℕ → Page
set_pd_lower p v = record { bytes = write_u16 p.bytes off_lower v }

unfoldable pub pd_upper : Page → ℕ
pd_upper p = read_u16 p.bytes off_upper

unfoldable pub set_pd_upper : Page → ℕ → Page
set_pd_upper p v = record { bytes = write_u16 p.bytes off_upper v }

-- `saturating_sub`
unfoldable pub free_space : Page → ℕ
free_space p = pd_upper p - pd_lower p

unfoldable pub num_slots : Page → ℕ
num_slots p =
    if ltb (pd_lower p) page_header_size
    then 0
    else (pd_lower p - page_header_size) / item_id_size % 2 ^ 16

-- The new page beside the slot. A call that returns an error leaves the page as it was.
unfoldable pub insert_tuple : Page → List ℕ → Outcome PageError (Page × ℕ)
insert_tuple p tuple = do
  let tuple_len = length tuple
  let needed = item_id_size + tuple_len
  guard (leb needed (free_space p)) (insufficient_space needed (free_space p))
  let slot = num_slots p
  let new_lower = (pd_lower p + item_id_size) % 2 ^ 16
  let new_upper = (pd_upper p + 2 ^ 16 - tuple_len % 2 ^ 16) % 2 ^ 16
  require (leb (new_upper + tuple_len) page_size)
  let stored = splice p.bytes new_upper tuple
  b ← write_item stored slot (record { lp_off = new_upper; lp_len = tuple_len % 2 ^ 16 })
  ok (set_pd_upper (set_pd_lower (record { bytes = b }) new_lower) new_upper, slot)

unfoldable pub get_tuple : Page → ℕ → Outcome PageError (List ℕ)
get_tuple p slot = do
  guard (ltb slot (num_slots p)) (slot_out_of_range slot)
  item ← read_item p.bytes slot
  guard (if is_dead item then false else true) (slot_dead slot)
  require (leb (item.lp_off + item.lp_len) page_size)
  ok (slice p.bytes item.lp_off item.lp_len)

unfoldable pub delete_tuple : Page → ℕ → Outcome PageError Page
delete_tuple p slot = do
  guard (ltb slot (num_slots p)) (slot_out_of_range slot)
  item ← read_item p.bytes slot
  guard (if is_dead item then false else true) (slot_dead slot)
  b ← write_item p.bytes slot (record { lp_off = 0; lp_len = 0 })
  ok (record { bytes = b })

-- `let _ = self.delete_tuple(slot)`: an error is dropped, a panic is not.
unfoldable pub mark_dead : Page → ℕ → Outcome PageError Page
mark_dead p slot = elim (delete_tuple p slot) [
  | ok q ↦ ok q
  | err e ↦ ok p
  | Outcome.panic ↦ Outcome.panic
]

unfoldable pub set_prune_xid : Page → ℕ → Page
set_prune_xid p xid = record { bytes = write_u32 p.bytes off_prune_xid xid }

unfoldable pub prune_xid : Page → ℕ
prune_xid p = from_le (slice p.bytes off_prune_xid 4)

abbrev pub fnv_offset : ℕ
fnv_offset = 2_166_136_261

abbrev pub fnv_prime : ℕ
fnv_prime = 16_777_619

unfoldable pub fnv_step : ℕ → ℕ → ℕ
fnv_step hash b = bit_xor hash b * fnv_prime % 2 ^ 32

-- The loop from index `i` on: the two bytes of the stored checksum count as zero.
unfoldable pub fnv_loop : ℕ → List ℕ → ℕ → ℕ
fnv_loop i [] hash = hash
fnv_loop i (byte ∷ bytes) hash =
    fnv_loop (suc i) bytes
      (fnv_step hash (if i == off_checksum || i == off_checksum + 1 then 0 else byte))

unfoldable pub compute_checksum : Page → ℕ
compute_checksum p =
    let hash = fnv_loop 0 p.bytes fnv_offset in bit_xor hash (hash / 2 ^ 16) % 2 ^ 16

unfoldable pub update_checksum : Page → Page
update_checksum p = set_checksum p (compute_checksum p)

unfoldable pub verify_checksum : Page → Bool
verify_checksum p = checksum p == compute_checksum p
