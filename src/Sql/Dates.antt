-- ===== src/Sql/Dates.antt =====
-- `format_date`, `format_timestamp` and `ymd_from_days` of crates/sql/src/value.rs, from the bits of an
-- `i32` of days and an `i64` of microseconds. A sum that does not fit an `i32` wraps.
pub mod Tests
use icedb.Base.{
  ℕ, zero, suc, ℤ, pos, negsuc, ◌+ℤ◌, ◌-ℤ◌, ◌*ℤ◌, ◌/ℤ◌, signed32, signed64, List, [], ◌∷◌, ◌++◌,
  ◌+◌, ◌-◌, ◌/◌, ◌%◌, ◌^◌, ltb, ltb_ℤ, if◌then◌else◌, replicate, length, ◌==◌, nat_key, none, some,
  true, false, inl, inr, ok, err, refl, arith, ◌>>=◌, ◌>>◌, ◌≡◌,
}

unfoldable pub rem_euclid : ℤ → ℕ → ℕ
rem_euclid (pos n) m = n % m
rem_euclid (negsuc n) m = m - 1 - n % m

-- The `i32` with the low bits of an integer.
abbrev pub wrap32 : ℤ → ℤ
wrap32 z = signed32 (rem_euclid z (2 ^ 32))

unfoldable pub ymd_from_days : ℤ → ℤ × ℤ × ℤ
ymd_from_days days =
    let z = wrap32 (days +ℤ pos 719_468) in
    let era = (if ltb_ℤ z (pos 0) then z -ℤ pos 146_096 else z) /ℤ pos 146_097 in
    let doe = z -ℤ (era *ℤ pos 146_097) in
    let yoe =
      (((doe -ℤ (doe /ℤ pos 1460)) +ℤ (doe /ℤ pos 36_524)) -ℤ (doe /ℤ pos 146_096)) /ℤ pos 365 in
    let y = yoe +ℤ (era *ℤ pos 400) in
    let doy = doe -ℤ (((pos 365 *ℤ yoe) +ℤ (yoe /ℤ pos 4)) -ℤ (yoe /ℤ pos 100)) in
    let mp = ((pos 5 *ℤ doy) +ℤ pos 2) /ℤ pos 153 in
    let d = (doy -ℤ (((pos 153 *ℤ mp) +ℤ pos 2) /ℤ pos 5)) +ℤ pos 1 in
    let m = if ltb_ℤ mp (pos 10) then mp +ℤ pos 3 else mp -ℤ pos 9 in
    (if ltb_ℤ (pos 2) m then y else y +ℤ pos 1, m, d)

-- The decimal digits; a number of 64 bits has no more than the fuel.
unfoldable pub digits : ℕ → ℕ → List ℕ
digits zero n = []
digits (suc fuel) n =
    let front = digits fuel (n / 10) in (if ltb n 10 then [] else front) ++ ((48 + n % 10) ∷ [])

abbrev pub padded_nat : ℕ → ℕ → List ℕ
padded_nat width n = let ds = digits 20 n in replicate (width - length ds) 48 ++ ds

-- `{z:0width}`: the sign counts.
unfoldable pub padded : ℕ → ℤ → List ℕ
padded width (pos n) = padded_nat width n
padded width (negsuc n) = b'-' ∷ padded_nat (width - 1) (n + 1)

unfoldable pub date_text : ℤ → List ℕ
date_text days =
    let (y, m, d) = ymd_from_days days in padded 4 y ++ (b'-' ∷ padded 2 m) ++ (b'-' ∷ padded 2 d)

unfoldable pub format_date : ℕ → List ℕ
format_date days = date_text (signed32 days)

unfoldable pub format_timestamp : ℕ → List ℕ
format_timestamp bits =
    let micros = signed64 bits in
    let total_secs = micros /ℤ pos 1_000_000 in
    let rem_micros = rem_euclid micros 1_000_000 in
    let days = wrap32 (total_secs /ℤ pos 86_400) in
    let time_secs = rem_euclid total_secs 86_400 in
    let whole =
      date_text days
      ++ (b' ' ∷ padded_nat 2 (time_secs / 3600))
      ++ (b':' ∷ padded_nat 2 (time_secs % 3600 / 60))
      ++ (b':' ∷ padded_nat 2 (time_secs % 60)) in
    if rem_micros == 0 then whole else whole ++ (b'.' ∷ padded_nat 6 rem_micros)
