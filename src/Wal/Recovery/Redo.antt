-- ===== src/Wal/Recovery/Redo.antt =====
-- What a recovery makes of each page of the heap file.
use icedb.Storage.Page
use icedb.Base.{
  nat_key, zero, suc, [], ◌∷◌, some, true, inl, inr, ok, refl, arith, ◌≡◌, ◌+◌, Option, ℕ, length,
  List, Bool-cases, if◌then◌else◌, ◌<◌, ◌^◌, ◌&&◌, ◌==◌, ◌≤◌, length-append, get_elem?-append_left,
  ltb, get_elem?, ◌∙◌, ◌%◌, ◌-◌, ap, length-set, get_elem?-set, All,
}
use icedb.Storage.Buffer.View.{get_elem?-bound}
use icedb.Wal.Recovery.{extend, is_page_image, ensure_pages, redo_record, recover, redo_all}
use icedb.Storage.Heap.{num_pages, HeapFile, allocate_page, write_page}
use icedb.Wal.Writer.{Entry, files, append_all, open_fresh}
use icedb.Storage.Page.{Page, update_checksum, page_size}
use icedb.Storage.Heap.Pages.{put_page-eq}
use native.Mathlib.Decide.{ℕ_discrete}
use icedb.Wal.Record.{WalRecord, encode}
use icedb.Wal.Record.RoundTrip.{IsWellFormed}
use icedb.Wal.Log.Append.{numbered, EntryFits}
use icedb.Wal.Reader.{end_of_log}
use icedb.Wal.Log.Torn.{torn_write, read_all-torn_write}

-- The page that the image of an entry puts on disk.
abbrev pub image_of : Entry → Page
image_of e = update_checksum (record { bytes = e.payload })

-- What the page `q` is after the entries, from what it was before them: its last image.
abbrev pub after_images : ℕ → List Entry → Option Page → Option Page
after_images q [] old = old
after_images q (e ∷ es) old =
    after_images q es
      (if is_page_image e.record_type && (e.page_no == q) then some (image_of e) else old)

-- An image is one page, and its number leaves room for the next one.
abbrev pub ImageFits : Entry → Type 0
ImageFits e =
    is_page_image e.record_type ≡ true → (length e.payload ≡ page_size) × (e.page_no + 1 < 2 ^ 32)

-- Every page of the first is the same page of the second.
abbrev Below : Option Page → Option Page → Type 0
Below a b = (p : Page) → a ≡ some p → b ≡ some p

after_images-Below :
    (q : ℕ) (es : List Entry) (a b : Option Page)
    → Below a b
    → Below (after_images q es a) (after_images q es b)
after_images-Below q [] a b h = h
after_images-Below q (e ∷ es) a b h = after_images-Below q es _ _ (λ p same.
    elim (Bool-cases (is_page_image e.record_type && (e.page_no == q))) [
      | inl hit ↦ ground (arith, hit, same)
      | inr miss ↦ ground (arith, miss, same, h p (ground (arith, miss, same)))
    ])

-- A file that was made longer.
record Longer (h h' : HeapFile) : Type 0 where
  few : length h'.pages < 2 ^ 32
  grows : length h.pages ≤ length h'.pages
  kept : (q : ℕ) → Below (get_elem? h.pages q) (get_elem? h'.pages q)

Longer-trans : {a b c : HeapFile} → Longer a b → Longer b c → Longer a c
Longer-trans k l = record {
  few = l.few;
  grows = omega (arith, k.grows, l.grows);
  kept = λ q p e. l.kept q p (k.kept q p e);
}

allocate_page-Longer : (h : HeapFile) → length h.pages + 1 < 2 ^ 32 → Longer h (allocate_page h).1
unfolding allocate_page
allocate_page-Longer h room = record {
  few = omega (arith, room, length-append h.pages (update_checksum Page.new ∷ []));
  grows = omega (arith, length-append h.pages (update_checksum Page.new ∷ []));
  kept = λ q p e.
      get_elem?-append_left h.pages (update_checksum Page.new ∷ []) q (get_elem?-bound h.pages q e)
      ∙ e;
}

length-allocate : (h : HeapFile) → length (allocate_page h).1.pages ≡ length h.pages + 1
unfolding allocate_page
length-allocate h = omega (arith, length-append h.pages (update_checksum Page.new ∷ []))

extend-Longer :
    (rounds required : ℕ) (h : HeapFile)
    → length h.pages < 2 ^ 32
    → required < 2 ^ 32
    → required ≤ length h.pages + rounds
    → Longer h (extend rounds required h) × (required ≤ length (extend rounds required h).pages)
unfolding extend num_pages
extend-Longer zero required h few fits enough =
    (record { few = few; grows = omega arith; kept = λ q p e. e }, omega (arith, enough))
extend-Longer (suc rounds) required h few fits enough =
    elim (Bool-cases (ltb (length h.pages % 2 ^ 32) required)) [
      | inr stop ↦
          rw stop (
            record { few = few; grows = omega arith; kept = λ q p e. e },
            ground (arith, stop, few),
          )
      | inl more ↦
          let one = allocate_page-Longer h (ground (arith, more, few, fits)) in
          let (rest, reached) =
            extend-Longer rounds required (allocate_page h).1 one.few fits
              (omega (arith, enough, length-allocate h)) in
          rw more (Longer-trans one rest, reached)
    ]

ensure_pages-Longer :
    (required : ℕ) (h : HeapFile)
    → length h.pages < 2 ^ 32
    → required < 2 ^ 32
    → Longer h (ensure_pages required h) × (required ≤ length (ensure_pages required h).pages)
unfolding ensure_pages num_pages
ensure_pages-Longer required h few fits =
    extend-Longer (required - length h.pages % 2 ^ 32) required h few fits (omega (arith, few))

-- One image: the file can still grow, its page is the image, and every other page stays.
record Redone (h h' : HeapFile) (e : Entry) : Type 0 where
  few : length h'.pages < 2 ^ 32
  pages :
      (q : ℕ)
      → Below
          (if is_page_image e.record_type && (e.page_no == q)
            then some (image_of e)
            else get_elem? h.pages q)
          (get_elem? h'.pages q)

write_page-Redone :
    (h h1 : HeapFile) (e : Entry)
    → is_page_image e.record_type ≡ true
    → Longer h h1
    → e.page_no < length h1.pages
    → Redone h (write_page h1 e.page_no (record { bytes = e.payload })) e
unfolding write_page
write_page-Redone h h1 e image l below =
    let at = put_page-eq h1.pages e.page_no (image_of e) below in
    record {
      few = omega (arith, l.few, ap length at, length-set h1.pages e.page_no (image_of e));
      pages = λ q p same.
          ap (λ (ps : List Page). get_elem? ps q) at
          ∙ get_elem?-set h1.pages e.page_no q (image_of e) below
          ∙ elim (ℕ_discrete q e.page_no) [
            | yes here ↦ ground (arith, image, here, same)
            | no ne ↦ ground (arith, image, ne, same, l.kept q p)
          ];
    }

-- The record that an entry becomes behind the LSN `n`.
abbrev record_of : ℕ → Entry → WalRecord
record_of n e = record {
  lsn = n + 1;
  prev_lsn = n;
  xid = e.xid;
  record_type = e.record_type;
  page_no = e.page_no;
  payload = e.payload;
}

redo_record-Redone :
    (h : HeapFile) (e : Entry) (n : ℕ)
    → length h.pages < 2 ^ 32
    → ImageFits e
    → (h' : HeapFile) × (redo_record h (record_of n e) ≡ ok h') × Redone h h' e
unfolding redo_record
redo_record-Redone h e n few fits = elim (Bool-cases (is_page_image e.record_type)) [
  | inr other ↦
      (h, rw other refl, record { few = few; pages = λ q p same. ground (arith, other, same) })
  | inl image ↦
      let (size, room) = fits image in
      let (longer, reached) = ensure_pages-Longer (e.page_no + 1) h few room in
      let whole : (length e.payload == page_size) ≡ true = ground (arith, size) in
      let number : (e.page_no + 1) % 2 ^ 32 ≡ e.page_no + 1 = omega (arith, room) in
      (
        write_page (ensure_pages (e.page_no + 1) h) e.page_no (record { bytes = e.payload }),
        rw (image, whole, number) refl,
        write_page-Redone h (ensure_pages (e.page_no + 1) h) e image longer
            (omega (arith, reached)),
      )
]

redo_all-step :
    (n : ℕ) (e : Entry) (es : List Entry) (h h1 : HeapFile)
    → redo_record h (record_of n e) ≡ ok h1
    → redo_all (numbered n (e ∷ es)) end_of_log h n
      ≡ redo_all (numbered (n + 1) es) end_of_log h1 (n + 1)
unfolding redo_all
redo_all-step n e es h h1 done = rw (done, redo_all) refl

-- What the loop over the records leaves of each page.
Recovered : List Entry → HeapFile → HeapFile → Type 0
Recovered es h h' = (q : ℕ) → Below (after_images q es (get_elem? h.pages q)) (get_elem? h'.pages q)

redo_all-Recovered :
    (es : List Entry) (n : ℕ) (h : HeapFile)
    → length h.pages < 2 ^ 32
    → All ImageFits es
    → (h' : HeapFile) × (redo_all (numbered n es) end_of_log h n ≡ (some (ok (n + length es)), h'))
      × Recovered es h h'
unfolding Recovered
redo_all-Recovered [] n h few fits =
    (h, unfold redo_all in ap (λ (k : ℕ). (some (ok k), h)) (omega arith), λ q p e. e)
redo_all-Recovered (e ∷ es) n h few fits =
    let (h1, done, r) = redo_record-Redone h e n few fits.0 in
    let (h', rest, later) = redo_all-Recovered es (n + 1) h1 r.few fits.1 in
    (
      h',
      redo_all-step n e es h h1 done ∙ rest ∙ ap (λ (k : ℕ). (some (ok k), h')) (omega arith),
      λ q p same. later q p (after_images-Below q es _ _ (r.pages q) p same),
    )

-- After a crash inside the write of a record behind the entries `es`, recovery without a checkpoint
-- succeeds and returns the last whole record's LSN, if each page image is one page and its number has
-- room for the next one. Every page that the file had or that the log has an image of is its last
-- image, or as before where there is none.
pub recover-torn_write :
    (size : ℕ) (es : List Entry) (cut : ℕ) (r : WalRecord) (h : HeapFile)
    → length es < 2 ^ 64
    → All EntryFits es
    → All ImageFits es
    → IsWellFormed r
    → cut < length (encode r)
    → length h.pages < 2 ^ 32
    → (h' : HeapFile) × (recover
          (length es + 1)
          (files (torn_write (append_all (open_fresh size) es) cut r))
          h
        ≡ (some (ok (length es)), h'))
      × ((q : ℕ) (p : Page)
          → after_images q es (get_elem? h.pages q) ≡ some p
          → get_elem? h'.pages q ≡ some p)
unfolding recover Recovered
recover-torn_write size es cut r h room fits images w short few =
    let (h', done, pages) = redo_all-Recovered es 0 h few images in
    (
      h',
      rw (read_all-torn_write size es cut r room fits w short)
          (done ∙ ap (λ (k : ℕ). (some (ok k), h')) (omega arith)),
      pages,
    )
