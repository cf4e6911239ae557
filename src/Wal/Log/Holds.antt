-- ===== src/Wal/Log/Holds.antt =====
-- The records that segments hold, as a relation, and that the reader returns just these.
use icedb.Base.{
  ℕ, zero, suc, ◌<◌, ◌≡◌, refl, sym, ◌∙◌, subst, none, some, List, [], ◌∷◌, ◌++◌, append_assoc,
  append-nil, arith, length, length-append, take, take-append, drop-append, All, ok,
}
use icedb.Wal.Record.{WalRecord, encode, decode}
use icedb.Wal.Record.RoundTrip.{IsWellFormed, length-encode, total_len-encode, decode-encode}
use icedb.Wal.Reader.{read_one_record, next_record, read_all, end_of_log}

abbrev pub encodings : List WalRecord → List ℕ
encodings [] = []
encodings (r ∷ rs) = encode r ++ encodings rs

take-encode :
    (r : WalRecord) (rest : List ℕ)
    → IsWellFormed r
    → decode (take (length (encode r)) (encode r ++ rest)) ≡ ok r
take-encode r rest w = rw take-append (rw append-nil at (decode-encode r [] w))

-- In front of any bytes a whole record is read, and nothing more.
pub read_one-encode :
    (r : WalRecord) (rest : List ℕ)
    → IsWellFormed r
    → read_one_record (encode r ++ rest) ≡ ok (some r, rest)
unfolding read_one_record
read_one-encode r rest w = ground (
  arith,
  total_len-encode r rest w,
  length-append (encode r) rest,
  length-encode r,
  take-encode r rest w,
  drop-append (encode r) rest,
)

-- What the reader takes for the end of a segment.
abbrev pub IsEnd : List ℕ → Type 0
IsEnd bytes = read_one_record bytes ≡ ok (none, [])

pub data Holds : List (List ℕ) → List WalRecord → Type 0 where
  done : Holds [] []
  skip :
      {segments : List (List ℕ)} {rs : List WalRecord} (t : List ℕ)
      → IsEnd t
      → Holds segments rs
      → Holds (t ∷ segments) rs
  take_one :
      {segments : List (List ℕ)} {rs : List WalRecord} (r : WalRecord) (rest : List ℕ)
      → IsWellFormed r
      → Holds (rest ∷ segments) rs
      → Holds ((encode r ++ rest) ∷ segments) (r ∷ rs)

next-skip :
    (t : List ℕ) (segments : List (List ℕ))
    → IsEnd t
    → next_record (t ∷ segments) ≡ next_record segments
unfolding next_record
next-skip t segments e = rw e

next-take_one :
    (r : WalRecord) (rest : List ℕ) (segments : List (List ℕ))
    → IsWellFormed r
    → next_record ((encode r ++ rest) ∷ segments) ≡ ok (some r, rest ∷ segments)
unfolding next_record
next-take_one r rest segments w = rw (read_one-encode r rest w)

read_all-skip :
    (fuel : ℕ) (t : List ℕ) (segments : List (List ℕ))
    → IsEnd t
    → read_all fuel (t ∷ segments) ≡ read_all fuel segments
read_all-skip zero t segments e = unfold read_all in refl
read_all-skip (suc fuel) t segments e = unfold read_all in rw (next-skip t segments e, read_all)

read_all-end : (fuel : ℕ) → 0 < fuel → read_all fuel [] ≡ ([], end_of_log)
unfolding read_all next_record
read_all-end zero h = absurd (omega arith)
read_all-end (suc fuel) h = refl

read_all-some :
    (fuel : ℕ) (r : WalRecord) (rs : List WalRecord) (segments segments' : List (List ℕ))
    → 0 < fuel
    → next_record segments ≡ ok (some r, segments')
    → ((f : ℕ) → fuel ≡ suc f → read_all f segments' ≡ (rs, end_of_log))
    → read_all fuel segments ≡ (r ∷ rs, end_of_log)
read_all-some zero r rs segments segments' h e ih = absurd (omega arith)
read_all-some (suc fuel) r rs segments segments' h e ih =
    unfold read_all in rw (e, read_all, ih fuel refl)

-- With more fuel than records the reader returns just the records that the segments hold.
pub read_all-Holds :
    {segments : List (List ℕ)} {rs : List WalRecord}
    → Holds segments rs
    → (fuel : ℕ) → length rs < fuel
    → read_all fuel segments ≡ (rs, end_of_log)
read_all-Holds done fuel lt = read_all-end fuel lt
read_all-Holds (skip {segments = ss} t e h) fuel lt =
    read_all-skip fuel t ss e ∙ read_all-Holds h fuel lt
read_all-Holds (take_one {segments = ss} {rs = rs} r rest w h) fuel lt =
    read_all-some fuel r rs _ (rest ∷ ss) (omega arith) (next-take_one r rest ss w)
      (λ f e. read_all-Holds h f (omega arith))

-- A segment that holds records, and after them what the reader takes for its end.
pub Holds-encodings :
    (rs : List WalRecord) (t : List ℕ) {segments : List (List ℕ)} {qs : List WalRecord}
    → All IsWellFormed rs
    → Holds (t ∷ segments) qs
    → Holds ((encodings rs ++ t) ∷ segments) (rs ++ qs)
Holds-encodings [] t w h = h
Holds-encodings (r ∷ rs) t {segments} {qs} w h =
    subst (λ (b : List ℕ). Holds (b ∷ segments) (r ∷ (rs ++ qs)))
      (sym (append_assoc (encode r) (encodings rs) t))
      (take_one r (encodings rs ++ t) w.0 (Holds-encodings rs t w.1 h))

pub nil-IsEnd : IsEnd []
unfolding read_one_record
nil-IsEnd = ground arith
