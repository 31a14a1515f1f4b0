-- ===== src/Calendar.antt =====
-- src/did.rs and src/governance.rs: days since 1970 as a calendar date, and the printed time.
pub mod Civil
use dyolo_kya.Prelude.{
  ℕ, zero, suc, ◌+◌, ◌-◌, ◌*◌, ◌/◌, ◌%◌, Bool, not, ◌&&◌, ◌||◌, ltb, ◌==◌, nat_eq, if◌then◌else◌,
  length, replicate, List, [], ◌∷◌, ◌++◌,
}
use dyolo_kya.Prelude.Bytes.{Bytes, text, decimal}

unfoldable pub is_leap : ℕ → Bool
is_leap y = (y % 4 == 0 && not (y % 100 == 0)) || y % 400 == 0

unfoldable pub year_days : ℕ → ℕ
year_days y = if is_leap y then 366 else 365

unfoldable pub month_days : ℕ → List ℕ
month_days y =
    if is_leap y
    then 31 ∷ 29 ∷ 31 ∷ 30 ∷ 31 ∷ 30 ∷ 31 ∷ 31 ∷ 30 ∷ 31 ∷ 30 ∷ 31 ∷ []
    else 31 ∷ 28 ∷ 31 ∷ 30 ∷ 31 ∷ 30 ∷ 31 ∷ 31 ∷ 30 ∷ 31 ∷ 30 ∷ 31 ∷ []

-- The loop over the years, on fuel: the year, and the days left in it.
unfoldable pub year_loop : ℕ → ℕ → ℕ → ℕ × ℕ
year_loop zero days year = (year, days)
year_loop (suc fuel) days year =
    let rest = year_loop fuel (days - year_days year) (year + 1) in
    if ltb days (year_days year) then (year, days) else rest

-- The loop over the months: the month, and the days left in it.
unfoldable pub month_loop : List ℕ → ℕ → ℕ → ℕ × ℕ
month_loop [] days month = (month, days)
month_loop (mlen ∷ mlens) days month =
    let rest = month_loop mlens (days - mlen) (month + 1) in
    if ltb days mlen then (month, days) else rest

-- Year, month and the days of the month that are over. A year has at least 365 days.
unfoldable pub split_date : ℕ → ℕ × ℕ × ℕ
split_date days =
    let (year, rest) = year_loop (days / 365 + 1) days 1970 in
    let (month, day) = month_loop (month_days year) rest 1 in (year, month, day)

unfoldable pub days_to_ymd : ℕ → ℕ × ℕ × ℕ
days_to_ymd days = let (year, month, day) = split_date days in (year, month, day + 1)

-- `{n:02}` and `{n:04}`.
unfoldable pub padded : ℕ → ℕ → Bytes
padded width n = replicate (width - length (decimal n)) b'0' ++ decimal n

unfoldable pub iso : ℕ × ℕ × ℕ → ℕ → Bytes
iso (year, month, day) unix =
    padded 4 year
    ++ (text "-"
        ++ (padded 2 month
            ++ (text "-"
                ++ (padded 2 day
                    ++ (text "T"
                        ++ (padded 2 (unix / 3600 % 24)
                            ++ (text ":"
                                ++ (padded 2 (unix / 60 % 60)
                                    ++ (text ":" ++ (padded 2 (unix % 60) ++ text "Z"))))))))))

-- src/did.rs.
unfoldable pub unix_to_iso8601 : ℕ → Bytes
unix_to_iso8601 unix = iso (days_to_ymd (unix / 86400)) unix

-- src/governance.rs, which prints the days that are over.
unfoldable pub unix_to_iso : ℕ → Bytes
unix_to_iso unix = iso (split_date (unix / 86400)) unix
