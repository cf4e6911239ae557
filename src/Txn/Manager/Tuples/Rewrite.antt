-- ===== src/Txn/Manager/Tuples/Rewrite.antt =====
-- Writing a tuple back under its TID with another header: what `get_tuple` of the heap file returns
-- afterwards.
use icedb.Storage.Page
use icedb.Storage.Heap
use icedb.Storage.Tuple
use icedb.Base.{
  nat_key, false, inl, inr, ok, err, refl, arith, ◌>>=◌, ◌≡◌, ℕ, List, Outcome, ◌<◌, ◌≢◌, ◌⊎◌,
  length, Bool-cases, ltb, map_err, length-slice, ◌≤◌, sym, ◌∙◌, ap,
}
use icedb.Storage.Heap.{read_page, HeapFile, tuple_error, write_page, page_error}
use native.Mathlib.Decide.{dec_lt, ℕ_discrete}
use icedb.Storage.Page.Fields.{Apart}
use icedb.Storage.Tuple.{decode, Tid, Tuple}
use icedb.Storage.Heap.Insert.{slot_tuple, get_tuple-write_page, get_tuple-at, slot_tuple-cong}
use icedb.Storage.Page.{Page, read_item, item_at, PageError, num_slots, is_dead}
use icedb.Storage.Page.Inv.{IsValid, item_in_page}
use icedb.Storage.Heap.Pages.{num_pages-eq, IsSound, read_page_total, write_page-IsSound}
use icedb.Storage.Tuple.RoundTrip.{
  IsWellFormed, tuple_decode_total, tuple_decode-encode, length-encode,
}
use icedb.Storage.Page.Overwrite.{
  overwritten, overwritten-IsValid, overwritten_bound, get_tuple-overwritten_self,
  get_tuple-overwritten_ne,
}
use icedb.Txn.Manager.Tuples.{rewrite_tuple, write_tuple_to_page}

-- Another tuple whose bytes do not meet those of `tid` on their page.
abbrev pub IsApart : HeapFile → Tid → Tid → Type 0
IsApart h tid other =
    (p : Page)
    → read_page h tid.page_no ≡ ok p
    → Apart (item_at p.bytes other.slot).lp_off (item_at p.bytes other.slot).lp_len
        (item_at p.bytes tid.slot).lp_off (item_at p.bytes tid.slot).lp_len

-- The tuple reads as `t`, and every tuple apart from it as before.
pub record IsRewritten (h h' : HeapFile) (tid : Tid) (t : Tuple) : Type 0 where
  pub sound : IsSound h'
  pub stored : Heap.get_tuple h' tid ≡ ok t
  pub kept :
      (other : Tid)
      → (other.page_no ≢ tid.page_no) ⊎ IsApart h tid other
      → Heap.get_tuple h' other ≡ Heap.get_tuple h other

page_below :
    {h : HeapFile} (tid : Tid) (t : Tuple)
    → IsSound h
    → Heap.get_tuple h tid ≡ ok t
    → tid.page_no < length h.pages
unfolding Heap.get_tuple read_page
page_below {h} tid t v e = elim (dec_lt tid.page_no (length h.pages)) [
  | yes below ↦ below
  | no out ↦ absurd (ground (arith, out, e, num_pages-eq v))
]

-- A slot that reads as bytes is live, and has the length of these bytes.
slot_read :
    {p : Page} (s : ℕ) (bytes : List ℕ)
    → IsValid p
    → Page.get_tuple p s ≡ ok bytes
    → (s < num_slots p)
      × (is_dead (item_at p.bytes s) ≡ false)
      × (length bytes ≡ (item_at p.bytes s).lp_len)
unfolding Page.get_tuple read_item
slot_read {p} s bytes v e = elim (Bool-cases (ltb s (num_slots p))) [
  | inr out ↦ absurd (ground (arith, out, e))
  | inl below ↦ elim (Bool-cases (is_dead (item_at p.bytes s))) [
    | inl dead ↦ absurd (ground (arith, below, dead, e))
    | inr live ↦ (
      ground (arith, below),
      live,
      elim (v.items s (ground (arith, below))) [
        | inl dead ↦ absurd (cc (dead, live))
        | inr range ↦ ground (
          arith,
          below,
          live,
          range,
          e,
          v.size,
          v.ordered,
          v.upper,
          item_in_page v s (ground (arith, below)),
          length-slice p.bytes (item_at p.bytes s).lp_off (item_at p.bytes s).lp_len,
        )
      ],
    )
  ]
]

map_err-ok {ℓ κ μ} :
    {E : Type ℓ} {F : Type κ} {A : Type μ} (f : E → F) (r : Outcome E A) {a : A}
    → map_err f r ≡ ok a
    → r ≡ ok a
map_err-ok f (ok b) e = ground (arith, e)
map_err-ok f (err x) e = absurd (ground (arith, e))
map_err-ok f Outcome.panic e = absurd (ground (arith, e))

-- The bytes behind a tuple of a page.
slot_tuple-inv :
    (p : Page) (s : ℕ) (t : Tuple)
    → slot_tuple p s ≡ ok t
    → (bytes : List ℕ) × (Page.get_tuple p s ≡ ok bytes) × (Tuple.decode bytes ≡ ok t)
slot_tuple-inv p s t e = go (Page.get_tuple p s) refl
  where
    go :
        (r : Outcome PageError (List ℕ))
        → Page.get_tuple p s ≡ r
        → (bytes : List ℕ) × (Page.get_tuple p s ≡ ok bytes) × (Tuple.decode bytes ≡ ok t)
    go (ok bytes) q = (bytes, q, map_err-ok tuple_error (Tuple.decode bytes) (ground (arith, q, e)))
    go (err x) q = absurd (ground (arith, q, e))
    go Outcome.panic q = absurd (ground (arith, q, e))

write_tuple_to_page-eq :
    {p : Page}
    → IsValid p
    → (k : ℕ) → k < num_slots p
    → is_dead (item_at p.bytes k) ≡ false
    → (t : Tuple) → length (Tuple.encode t) ≤ (item_at p.bytes k).lp_len
    → write_tuple_to_page p k t ≡ ok (overwritten p k (Tuple.encode t))
unfolding write_tuple_to_page read_item
write_tuple_to_page-eq v k below live t fits = ground (
  arith,
  fits,
  item_in_page v k below,
  v.ordered,
  v.upper,
  overwritten_bound v k below live (Tuple.encode t) fits,
)

module _ {h : HeapFile} (v : IsSound h) (tid : Tid) (t t' : Tuple)
    (found : Heap.get_tuple h tid ≡ ok t) (well : IsWellFormed t'.header)
    (same_hoff : t'.header.t_hoff ≡ t.header.t_hoff)
    (same_length : length t'.payload ≡ length t.payload) where
  -- What the page of the tuple is, and where the tuple stands on it.
  record Place : Type 0 where
    page : Page
    below : tid.page_no < length h.pages
    read : read_page h tid.page_no ≡ ok page
    valid : IsValid page
    slot_below : tid.slot < num_slots page
    live : is_dead (item_at page.bytes tid.slot) ≡ false
    as_long : length (Tuple.encode t') ≡ (item_at page.bytes tid.slot).lp_len

  same_size : (bytes : List ℕ) → Tuple.decode bytes ≡ ok t → length (Tuple.encode t') ≡ length bytes
  same_size bytes e = elim (tuple_decode_total bytes) [
    | inl (short, bad) ↦ absurd (ground (arith, bad, e))
    | inr (inl (x, y, z, bad)) ↦ absurd (ground (arith, bad, e))
    | inr (inr (u, good, size)) ↦
        ground (arith, good, e, size, same_hoff, same_length, length-encode t' well)
  ]

  place : Place
  place =
      let below = page_below tid t v found in
      let (p, read, stamped) = read_page_total v tid.page_no below in
      let (bytes, got, decoded) =
        slot_tuple-inv p tid.slot t (sym (get_tuple-at h tid p read) ∙ found) in
      let (slot_below, live, size) = slot_read tid.slot bytes stamped.valid got in
      record {
        page = p;
        below = below;
        read = read;
        valid = stamped.valid;
        slot_below = slot_below;
        live = live;
        as_long = same_size bytes decoded ∙ size;
      }

  abbrev rewritten : Page
  rewritten = overwritten place.page tid.slot (Tuple.encode t')

  fits : length (Tuple.encode t') ≤ (item_at place.page.bytes tid.slot).lp_len
  fits = omega (arith, place.as_long)

  rewritten-IsValid : IsValid rewritten
  rewritten-IsValid =
      overwritten-IsValid place.valid tid.slot place.slot_below place.live (Tuple.encode t') fits

  rewrite_tuple-eq : rewrite_tuple h tid t' ≡ ok rewritten
  unfolding rewrite_tuple
  rewrite_tuple-eq =
      let written =
        write_tuple_to_page-eq place.valid tid.slot place.slot_below place.live t' fits in
      rw (place.read, written) refl

  rewritten_self : slot_tuple rewritten tid.slot ≡ ok t'
  rewritten_self =
      let got : Page.get_tuple rewritten tid.slot ≡ ok (Tuple.encode t') =
        get_tuple-overwritten_self place.valid tid.slot place.slot_below place.live
          (Tuple.encode t') fits place.as_long in
      ap
        (λ (r : Outcome PageError (List ℕ)).
          map_err page_error r >>= λ bytes. map_err tuple_error (Tuple.decode bytes))
        got
      ∙ ap (map_err tuple_error) (tuple_decode-encode t' well)

  rewritten_other :
      (other : Tid)
      → other.page_no ≡ tid.page_no
      → IsApart h tid other
      → slot_tuple rewritten other.slot ≡ Heap.get_tuple h other
  rewritten_other other same apart =
      slot_tuple-cong place.page rewritten other.slot (
        get_tuple-overwritten_ne place.valid tid.slot place.slot_below place.live (Tuple.encode t')
          fits other.slot (rw place.as_long (apart place.page place.read)))
      ∙ sym (get_tuple-at h other place.page (rw same place.read))

  rewritten-IsRewritten : IsRewritten h (write_page h tid.page_no rewritten) tid t'
  rewritten-IsRewritten = record {
    sound = write_page-IsSound v tid.page_no place.below rewritten rewritten-IsValid;
    stored =
        get_tuple-write_page tid.page_no rewritten tid v place.below rewritten-IsValid
        ∙ ground (arith, rewritten_self);
    kept = λ other away.
        get_tuple-write_page tid.page_no rewritten other v place.below rewritten-IsValid
        ∙ elim (ℕ_discrete other.page_no tid.page_no) [
          | no ne ↦ ground (arith, ne)
          | yes same ↦ elim away [
            | inl ne ↦ absurd (ne same)
            | inr apart ↦ ground (arith, same, rewritten_other other same apart)
          ]
        ];
  }

  -- The tuple `t` of a sound file is written back as `t'`, with a header that is well-formed and a row and a
  -- `t_hoff` of the same length: it reads as `t'`, and every tuple apart from it as before.
  pub rewrite_tuple-IsRewritten :
      (q : Page) × (rewrite_tuple h tid t' ≡ ok q)
      × IsRewritten h (write_page h tid.page_no q) tid t'
  rewrite_tuple-IsRewritten = (rewritten, rewrite_tuple-eq, rewritten-IsRewritten)
