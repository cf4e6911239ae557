-- ===== src/Btree/State.antt =====
-- The state of an index (crates/btree/src/tree.rs, file.rs) and its operations: a result, and the index
-- as it is then, since an error in the middle leaves the pages written before it.
use icedb.Btree.Codec.{BtreeError}
use icedb.Wal.Writer.{Writer}
use icedb.Base.{Outcome, panic, err, ok, List, ℕ, nat_key}

pub record Index : Type 0 where
  pub pages : List (List ℕ)
  pub wal : Writer
  pub index_id : ℕ

abbrev pub M : Type 0 → Type 0
M A = Index → Outcome BtreeError A × Index

abbrev pub continue_with : {A B : Type 0} → Outcome BtreeError A → (A → M B) → M B
continue_with panic f t = (panic, t)
continue_with (err e) f t = (err e, t)
continue_with (ok a) f t = f a t

infixl 5 ◌>>=◌ ◌>>◌
abbrev pub ◌>>=◌ : {A B : Type 0} → M A → (A → M B) → M B
◌>>=◌ m f t = continue_with (m t).0 f (m t).1

abbrev pub ◌>>◌ : {B : Type 0} → M (Unit {0}) → M B → M B
◌>>◌ m k = m >>= λ done. k

abbrev pub lift : {A : Type 0} → Outcome BtreeError A → M A
lift o t = (o, t)

abbrev pub pure : {A : Type 0} → A → M A
pure a t = (ok a, t)
