-- ===== src/Sql/Dates/Tests.antt =====
-- Dates and timestamps of crates/sql/src/value.rs as text.
use icedb.Sql.Dates.{
  format_date, format_timestamp, date_text, padded, ymd_from_days, rem_euclid, digits,
}
use icedb.Base.{nat_key, [], ◌∷◌, refl, ◌≡◌, ◌^◌, ◌-◌, ◌/ℤ◌, ◌+ℤ◌, ◌*ℤ◌, ◌-ℤ◌, replicate}

-- 2000-02-29
leap_day :
    format_date 11_016 ≡ b'2' ∷ b'0' ∷ b'0' ∷ b'0' ∷ b'-' ∷ b'0' ∷ b'2' ∷ b'-' ∷ b'2' ∷ b'9' ∷ []
unfolding format_date date_text padded ymd_from_days rem_euclid digits ◌/ℤ◌ ◌+ℤ◌ ◌*ℤ◌ ◌-ℤ◌ replicate
leap_day = refl

-- One second before 1970 is printed as 1970-01-01 23:59:59, since the division rounds towards zero.
before_epoch :
    format_timestamp (2 ^ 64 - 1_000_000)
    ≡ b'1' ∷ b'9' ∷ b'7' ∷ b'0' ∷ b'-' ∷ b'0' ∷ b'1' ∷ b'-' ∷ b'0' ∷ b'1' ∷ b' ' ∷ b'2' ∷ b'3'
      ∷ b':' ∷ b'5' ∷ b'9' ∷ b':' ∷ b'5' ∷ b'9' ∷ []
unfolding format_timestamp date_text padded ymd_from_days rem_euclid digits ◌/ℤ◌ ◌+ℤ◌ ◌*ℤ◌ ◌-ℤ◌
    replicate
before_epoch = refl
