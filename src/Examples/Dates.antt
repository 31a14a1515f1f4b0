-- ===== src/Examples/Dates.antt =====
-- Dates of a few days, and the day that governance prints.
use dyolo_kya.Prelude.{◌-◌, ◌≡◌, refl}
use dyolo_kya.Prelude.Bytes.{text, decimal, decimal_digits}
use dyolo_kya.Calendar.{
  is_leap, year_days, month_days, year_loop, month_loop, split_date, days_to_ymd, padded, iso,
  unix_to_iso8601, unix_to_iso,
}
use dyolo_kya.Calendar.Civil.{IsDate, days_to_ymd-IsDate}

-- 29 February 2000.
leap_day : days_to_ymd 11016 ≡ (2000, 2, 29)
unfolding days_to_ymd split_date year_loop month_loop year_days month_days is_leap
leap_day = refl

epoch : unix_to_iso8601 0 ≡ text "1970-01-01T00:00:00Z"
unfolding unix_to_iso8601 days_to_ymd split_date year_loop month_loop year_days month_days is_leap
    iso padded decimal decimal_digits text
epoch = refl

-- The report of the same moment is of a day 00.
epoch_of_report : unix_to_iso 0 ≡ text "1970-01-00T00:00:00Z"
unfolding unix_to_iso split_date year_loop month_loop year_days month_days is_leap iso padded
    decimal decimal_digits text
epoch_of_report = refl

days_to_ymd-IsDate_example :
    IsDate 11016 (days_to_ymd 11016)
    × (let (year, month, day) = days_to_ymd 11016 in split_date 11016 ≡ (year, month, day - 1))
days_to_ymd-IsDate_example = days_to_ymd-IsDate 11016
