-- ===== src/Storage/Page/Insert.antt =====
-- `Page::insert_tuple` against `Page::get_tuple`: the new slot reads back, the others are as before.
use icedb.Base.{
  ℕ, ◌+◌, ◌-◌, ◌≤◌, ◌<◌, ◌≡◌, ap₂, ◌∙◌, List, arith, length, from_le, slice, splice, length-splice,
  slice-splice_self, ok,
}
use icedb.Storage.Page.{
  Page, ItemId, page_size, item_id_size, item_base, off_lower, off_upper, item_at, write_item,
  read_u16, write_u16, pd_lower, pd_upper, set_pd_lower, set_pd_upper, num_slots, free_space,
  insert_tuple,
}
use icedb.Storage.Page.Fields.{
  Apart, slice-splice_ne, length-write_u16, slice-write_u16_ne, read-write_u16_ne,
  read-write_u16_self,
}
use icedb.Storage.Page.Inv.{IsValid, item_in_page}

-- The page that a successful insertion leaves, without the wrap-around.
unfoldable pub stored : Page → List ℕ → List ℕ
stored p d = splice p.bytes (pd_upper p - length d) d

unfoldable pub pointed : Page → List ℕ → List ℕ
pointed p d =
    write_u16 (write_u16 (stored p d) (item_base (num_slots p)) (pd_upper p - length d))
      (item_base (num_slots p) + 2) (length d)

pub inserted : Page → List ℕ → Page
inserted p d = record {
  bytes =
      write_u16 (write_u16 (pointed p d) off_lower (pd_lower p + item_id_size)) off_upper
        (pd_upper p - length d);
}

module _ {p : Page} (v : IsValid p) (d : List ℕ)
    (fits : item_id_size + length d ≤ free_space p) where
  room : (length d + 4 + pd_lower p ≤ pd_upper p)
  unfolding free_space
  room = omega (arith, fits)

  pub insert_tuple-eq : insert_tuple p d ≡ ok (inserted p d, num_slots p)
  unfolding insert_tuple inserted pointed stored write_item set_pd_lower set_pd_upper
  insert_tuple-eq = ground (arith, room, v.lower, v.upper, fits)

  base-eq : item_base (num_slots p) ≡ pd_lower p
  base-eq = omega (arith, v.lower)

  length-stored : length (stored p d) ≡ page_size
  unfolding stored
  length-stored = length-splice p.bytes (pd_upper p - length d) d ∙ v.size

  length-pointed : length (pointed p d) ≡ page_size
  unfolding pointed
  length-pointed = length-write_u16 _ _ _ ∙ length-write_u16 _ _ _ ∙ length-stored

  pub length-inserted : length (inserted p d).bytes ≡ page_size
  unfolding inserted
  length-inserted = length-write_u16 _ _ _ ∙ length-write_u16 _ _ _ ∙ length-pointed

  pub pd_upper-inserted : pd_upper (inserted p d) ≡ pd_upper p - length d
  unfolding pd_upper inserted
  pd_upper-inserted =
      read-write_u16_self _ off_upper _
        (omega (arith, length-write_u16 (pointed p d) off_lower (pd_lower p + 4), length-pointed))
        (omega (arith, v.upper))

  pub pd_lower-inserted : pd_lower (inserted p d) ≡ pd_lower p + item_id_size
  unfolding pd_lower inserted
  pd_lower-inserted =
      read-write_u16_ne _ off_upper _ off_lower (omega arith)
      ∙ read-write_u16_self _ off_lower _ (omega (arith, length-pointed))
          (omega (arith, room, v.upper))

  pub num_slots-inserted : num_slots (inserted p d) ≡ num_slots p + 1
  unfolding num_slots
  num_slots-inserted = ground (arith, pd_lower-inserted, v.lower, v.ordered, v.upper, room)

  -- Behind the header, and off the new item pointer, only the tuple's bytes are new.
  slice-inserted :
      (o n : ℕ)
      → 16 ≤ o
      → Apart o n (pd_lower p) 4
      → slice (inserted p d).bytes o n ≡ slice (stored p d) o n
  unfolding inserted pointed
  slice-inserted o n h apart =
      slice-write_u16_ne _ off_upper _ o n (omega arith)
      ∙ slice-write_u16_ne _ off_lower _ o n (omega arith)
      ∙ slice-write_u16_ne _ (item_base (num_slots p) + 2) _ o n (omega (arith, base-eq, apart))
      ∙ slice-write_u16_ne _ (item_base (num_slots p)) _ o n (omega (arith, base-eq, apart))

  pub tuple-inserted : slice (inserted p d).bytes (pd_upper p - length d) (length d) ≡ d
  unfolding stored
  tuple-inserted =
      slice-inserted _ _ (omega (arith, room, v.lower)) (omega (arith, room))
      ∙ slice-splice_self p.bytes _ d (omega (arith, v.size, v.upper, room))

  pub slice-inserted_upper :
      (o n : ℕ) → pd_upper p ≤ o → slice (inserted p d).bytes o n ≡ slice p.bytes o n
  unfolding stored
  slice-inserted_upper o n h =
      slice-inserted o n (omega (arith, room, v.lower)) (omega (arith, room))
      ∙ slice-splice_ne p.bytes _ d o n (omega (arith, room))

  pub slice-inserted_lower :
      (o n : ℕ) → 16 ≤ o → o + n ≤ pd_lower p → slice (inserted p d).bytes o n ≡ slice p.bytes o n
  unfolding stored
  slice-inserted_lower o n h hn =
      slice-inserted o n h (omega arith) ∙ slice-splice_ne p.bytes _ d o n (omega (arith, room))

  pub item_at-inserted_old :
      (s : ℕ) → s < num_slots p → item_at (inserted p d).bytes s ≡ item_at p.bytes s
  unfolding item_at read_u16
  item_at-inserted_old s h =
      ap₂
        (λ (a b : List ℕ). let i : ItemId = record { lp_off = from_le a; lp_len = from_le b } in i)
        (slice-inserted_lower (item_base s) 2 (omega arith) (omega (arith, item_in_page v s h)))
        (slice-inserted_lower (item_base s + 2) 2 (omega arith) (omega (arith, item_in_page v s h)))

  pub item_at-inserted_new :
      item_at (inserted p d).bytes (num_slots p)
      ≡ record { lp_off = pd_upper p - length d; lp_len = length d }
  unfolding item_at inserted pointed
  item_at-inserted_new =
      ap₂ (λ (a b : ℕ). let i : ItemId = record { lp_off = a; lp_len = b } in i)
        (read-write_u16_ne _ off_upper _ _ (omega arith)
          ∙ read-write_u16_ne _ off_lower _ _ (omega arith)
          ∙ read-write_u16_ne _ _ _ _ (omega arith)
          ∙ read-write_u16_self _ _ _ (omega (arith, length-stored, v.upper, room, base-eq))
              (omega (arith, v.upper)))
        (read-write_u16_ne _ off_upper _ _ (omega arith)
          ∙ read-write_u16_ne _ off_lower _ _ (omega arith)
          ∙ read-write_u16_self _ _ _
              (omega (
                arith,
                length-write_u16 (stored p d) (item_base (num_slots p)) (pd_upper p - length d),
                length-stored,
                v.upper,
                room,
                base-eq,
              ))
              (omega (arith, v.upper, room)))
