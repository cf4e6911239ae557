-- ===== src/Storage/Page/Fresh.antt =====
-- A fresh page: the fields that `Page::new` writes.
use icedb.Base.{◌-◌, ◌≡◌, refl, length, replicate, slice, splice, to_le, from_le, arith}
use icedb.Storage.Page.{
  page_size, page_header_size, new, init_header, pd_lower, pd_upper, num_slots, free_space,
  write_u16, write_u32, write_u64, read_u16,
}
use icedb.Storage.Page.Inv.{IsValid}

length-new : length new.bytes ≡ page_size
unfolding new init_header replicate splice to_le write_u16 write_u32 write_u64
length-new = refl

pd_lower-new : pd_lower new ≡ page_header_size
unfolding pd_lower new init_header replicate splice slice from_le to_le write_u16 write_u32
    write_u64 read_u16
pd_lower-new = refl

pd_upper-new : pd_upper new ≡ page_size
unfolding pd_upper new init_header replicate splice slice from_le to_le write_u16 write_u32
    write_u64 read_u16
pd_upper-new = refl

-- `Page::new` is a valid page with no slot, and all but the header free.
pub new-IsValid :
    IsValid new × (num_slots new ≡ 0) × (free_space new ≡ page_size - page_header_size)
unfolding num_slots free_space
new-IsValid = (
  record {
    size = length-new;
    lower = ground (arith, pd_lower-new);
    ordered = omega (arith, pd_lower-new, pd_upper-new);
    upper = omega (arith, pd_upper-new);
    items = λ slot h. absurd (ground (arith, pd_lower-new));
  },
  ground (arith, pd_lower-new),
  omega (arith, pd_lower-new, pd_upper-new),
)
