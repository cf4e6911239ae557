-- ===== src/Btree/Tree.antt =====
-- crates/btree/src/tree.rs and file.rs: the pages of an index and its log. Input and output succeed.
-- A read behind the end of the file gives zeroes. Additions of `u32` and `u64` panic when they
-- overflow, as in a debug build.
pub mod Search
pub mod Update
pub mod Range
pub mod Entries
pub mod Descent
pub mod Store
pub mod Refine
pub mod Fresh
pub mod Tests
use icedb.Btree.Meta.{BtreeMeta, meta_page_no}
use icedb.Btree.Meta
use icedb.Btree.Codec
use icedb.Btree.Codec.{BtreeError, BtreeNode, NodeType, InternalEntry, internal, leaf}
use icedb.Wal.Writer.{append}
use icedb.Base.{
  nat_key, zero, suc, [], ◌∷◌, ok, ◌+◌, panic, ℕ, List, replicate, length, ◌++◌, get_or,
  if◌then◌else◌, Outcome, ◌-◌, ltb, ◌*◌, set, ◌^◌,
}
use icedb.Storage.Page.{page_size}
use icedb.Wal.Record.{page_image}
use icedb.Btree.State.{M, ◌>>=◌, lift}

unfoldable pub zero_page : List ℕ
zero_page = replicate page_size 0

unfoldable pub read_page : List (List ℕ) → ℕ → List ℕ
read_page pages page_no = get_or pages page_no zero_page

-- A write behind the end leaves a gap of zeroes.
unfoldable pub write_page : List (List ℕ) → ℕ → List ℕ → List (List ℕ)
write_page pages page_no page =
    if ltb page_no (length pages)
    then set pages page_no page
    else pages ++ (replicate (page_no - length pages) zero_page ++ (page ∷ []))

abbrev pub num_pages : List (List ℕ) → ℕ
num_pages pages = length pages

unfoldable pub allocate_page : List (List ℕ) → List (List ℕ)
allocate_page pages = pages ++ (zero_page ∷ [])

-- `while num_pages <= page_no { allocate_page }`: each round adds a page.
unfoldable pub allocate_pages : ℕ → List (List ℕ) → List (List ℕ)
allocate_pages zero pages = pages
allocate_pages (suc rounds) pages = allocate_pages rounds (allocate_page pages)

unfoldable pub allocate_through : ℕ → M (Unit {0})
allocate_through page_no t =
    (ok tt, record t { pages = allocate_pages (page_no + 1 - num_pages t.pages) t.pages })

unfoldable pub wal_page_no : ℕ → ℕ → Outcome BtreeError ℕ
wal_page_no index_id page_no =
    if ltb (index_id * 100000 + page_no) (2 ^ 32) then ok (index_id * 100000 + page_no) else panic

-- The 32 bytes of the meta record at the front of a page of zeroes.
unfoldable pub meta_page : BtreeMeta → List ℕ
meta_page m = Meta.encode m ++ replicate (page_size - 32) 0

unfoldable pub read_meta : M BtreeMeta
read_meta t = (Meta.decode (read_page t.pages meta_page_no), t)

unfoldable pub write_meta : BtreeMeta → M (Unit {0})
write_meta m t = (ok tt, record t { pages = write_page t.pages meta_page_no (meta_page m) })

unfoldable pub read_node : ℕ → M BtreeNode
read_node page_no t = (Codec.decode (read_page t.pages page_no), t)

abbrev pub store_page : ℕ → ℕ → ℕ → List ℕ → M (Unit {0})
store_page xid page_no log_page page t = (
  ok tt,
  record t {
    pages = write_page t.pages page_no page;
    wal =
        append t.wal
          (record { xid = xid; record_type = page_image; page_no = log_page; payload = page });
  },
)

-- `write_node`, with the page number in the log, which its callers compute.
unfoldable pub write_node : ℕ → ℕ → BtreeNode → M (Unit {0})
write_node xid page_no node = λ t.
    (do
      log_page ← lift (wal_page_no t.index_id page_no)
      page ← lift (Codec.encode node)
      store_page xid page_no log_page page)
      t
