-- ===== src/Txn/Xid.antt =====
-- crates/txn/src/xid.rs: transaction ids and the process-wide counter, as its value.
use icedb.Base.{ℕ, ◌+◌, ◌%◌, ◌^◌, leb, if◌then◌else◌}

abbrev pub invalid_xid : ℕ
invalid_xid = 0

abbrev pub frozen_xid : ℕ
frozen_xid = 2

-- The counter starts here.
abbrev pub first_xid : ℕ
first_xid = 3

-- `fetch_add` returns the old value and wraps.
unfoldable pub allocate_xid : ℕ → ℕ × ℕ
allocate_xid counter = (counter, (counter + 1) % 2 ^ 32)

-- The compare-and-exchange loop, with no other thread at the counter.
unfoldable pub advance_next_xid : ℕ → ℕ → ℕ
advance_next_xid counter min_val = if leb min_val counter then counter else min_val
