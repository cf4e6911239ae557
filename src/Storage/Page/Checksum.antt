-- ===== src/Storage/Page/Checksum.antt =====
-- The page checksum: stamping it makes the page verify, and changes no tuple.
use icedb.Base.{
  ℕ, zero, suc, ◌+◌, ◌-◌, ◌%◌, ◌/◌, ◌≤◌, ◌<◌, ◌≡◌, refl, sym, ap₂, ◌∙◌, true, inl, List, [], ◌∷◌,
  arith, length, splice, to_le, length-to_le, ==_iff, ap,
}
use icedb.Storage.Page.{
  Page, page_size, off_checksum, fnv_loop, fnv_offset, write_u16, checksum, set_checksum,
  compute_checksum, update_checksum, verify_checksum, get_tuple, num_slots, free_space,
}
use icedb.Storage.Page.Fields.{read-write_u16_self}
use icedb.Storage.Page.Inv.{IsValid}
use icedb.Storage.Page.Header.{
  touched, touched-IsValid, get_tuple-touched, num_slots-touched, pd_lower-touched,
  pd_upper-touched,
}

-- The two bytes of the stored checksum do not count.
fnv_loop-splice :
    (k i : ℕ) (b : List ℕ) (x y hash : ℕ)
    → i + k ≡ off_checksum
    → fnv_loop i (splice b k (x ∷ y ∷ [])) hash ≡ fnv_loop i b hash
unfolding fnv_loop splice
fnv_loop-splice zero i [] x y hash e = refl
fnv_loop-splice zero i (a ∷ []) x y hash e = ground arith
fnv_loop-splice zero i (a ∷ c ∷ b) x y hash e = ground arith
fnv_loop-splice (suc k) i [] x y hash e = refl
fnv_loop-splice (suc k) i (a ∷ b) x y hash e = fnv_loop-splice k (suc i) b x y _ (omega arith)

compute-set_checksum : (p : Page) (c : ℕ) → compute_checksum (set_checksum p c) ≡ compute_checksum p
unfolding compute_checksum set_checksum write_u16 to_le
compute-set_checksum p c =
    rw (fnv_loop-splice 8 0 p.bytes (c % 256) (c / 256 % 256) fnv_offset (omega arith))

overlay_twice :
    (k : ℕ) (b : List ℕ) (x y u v : ℕ)
    → splice (splice b k (x ∷ y ∷ [])) k (u ∷ v ∷ []) ≡ splice b k (u ∷ v ∷ [])
unfolding splice
overlay_twice zero [] x y u v = refl
overlay_twice zero (a ∷ []) x y u v = refl
overlay_twice zero (a ∷ c ∷ b) x y u v = refl
overlay_twice (suc k) [] x y u v = refl
overlay_twice (suc k) (a ∷ b) x y u v = ap (λ (l : List ℕ). a ∷ l) (overlay_twice k b x y u v)

set-set_checksum : (p : Page) (c d : ℕ) → set_checksum (set_checksum p c) d ≡ set_checksum p d
unfolding set_checksum write_u16 to_le
set-set_checksum p c d = rw overlay_twice

-- Stamping twice is stamping once.
pub update-update_checksum : (p : Page) → update_checksum (update_checksum p) ≡ update_checksum p
unfolding update_checksum
update-update_checksum p = rw (compute-set_checksum p (compute_checksum p)) (set-set_checksum p _ _)

checksum_small : (p : Page) → compute_checksum p < 65536
unfolding compute_checksum
checksum_small p = omega arith

update-touched :
    (p : Page) → update_checksum p ≡ touched p off_checksum (to_le 2 (compute_checksum p))
unfolding update_checksum set_checksum write_u16 touched
update-touched p = refl

spare : (p : Page) → (off_checksum + length (to_le 2 (compute_checksum p)) ≤ 12)
spare p = omega (arith, length-to_le 2 (compute_checksum p))

-- Stamping the checksum of a page of full size makes it verify, whatever the page holds.
pub verify-update_checksum :
    (p : Page) → length p.bytes ≡ page_size → verify_checksum (update_checksum p) ≡ true
unfolding verify_checksum update_checksum checksum set_checksum
verify-update_checksum p h =
    (==_iff (checksum (update_checksum p)) (compute_checksum (update_checksum p))).1 same
  where
    same : checksum (update_checksum p) ≡ compute_checksum (update_checksum p)
    same =
        read-write_u16_self p.bytes off_checksum _ (omega (arith, h)) (checksum_small p)
        ∙ sym (compute-set_checksum p (compute_checksum p))

-- Stamping the checksum of a valid page leaves it valid, with the same slots and free space, and
-- `get_tuple` returns for every slot what it returned before.
pub update_checksum-IsValid :
    (p : Page)
    → IsValid p
    → IsValid (update_checksum p)
      × (num_slots (update_checksum p) ≡ num_slots p)
      × (free_space (update_checksum p) ≡ free_space p)
      × ((slot : ℕ) → get_tuple (update_checksum p) slot ≡ get_tuple p slot)
unfolding free_space
update_checksum-IsValid p v =
    let room = inl (spare p) in
    rw update-touched (
      touched-IsValid v off_checksum _ room,
      num_slots-touched p off_checksum _ room,
      ap₂ (λ (a b : ℕ). a - b) (pd_upper-touched p off_checksum _ room)
          (pd_lower-touched p off_checksum _ room),
      get_tuple-touched v off_checksum _ room,
    )
