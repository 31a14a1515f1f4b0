-- ===== src/Calendar/Civil.antt =====
-- src/did.rs: the loops end, and what they leave is the calendar date.
use dyolo_kya.Prelude.{
  ℕ, zero, suc, ◌+◌, ◌-◌, ◌*◌, ◌/◌, ◌≤◌, ◌<◌, ◌≡◌, refl, inl, inr, false, ltb, ltb→lt, length,
  get_or, take, List, [], ◌∷◌, arith, Bool-cases,
}
use dyolo_kya.Calendar.{
  is_leap, year_days, month_days, year_loop, month_loop, split_date, days_to_ymd,
}

-- The leap years up to `n`.
abbrev pub leaps : ℕ → ℕ
leaps n = n / 4 + n / 400 - n / 100

-- The days from 1970 to the start of a year: 477 leap years stand before 1970.
abbrev pub days_before_year : ℕ → ℕ
days_before_year y = 365 * (y - 1970) + (leaps (y - 1) - 477)

abbrev pub total : List ℕ → ℕ
total [] = 0
total (x ∷ xs) = x + total xs

-- The days of the year before a month, counted from 1.
abbrev pub days_before_month : ℕ → ℕ → ℕ
days_before_month y m = total (take (m - 1) (month_days y))

ltb→ge : (a b : ℕ) → ltb a b ≡ false → b ≤ a
ltb→ge a b h = ground arith

year_days-bounds : (y : ℕ) → (365 ≤ year_days y) × (year_days y ≤ 366)
unfolding year_days
year_days-bounds y = elim (Bool-cases (is_leap y)) [
  | inl e ↦ rw e (ground arith, ground arith)
  | inr e ↦ rw e (ground arith, ground arith)
]

total-month_days : (y : ℕ) → total (month_days y) ≡ year_days y
unfolding month_days year_days
total-month_days y = elim (Bool-cases (is_leap y)) [ inl e ↦ rw e refl | inr e ↦ rw e refl ]

next_year : (y : ℕ) → 1970 ≤ y → days_before_year (y + 1) ≡ days_before_year y + year_days y
unfolding year_days is_leap
next_year y h = ground arith

-- Where the loop over the years stops, on fuel for as many years of 365 days as there are days.
record YearSplit (days from year rest : ℕ) : Type 0 where
  later : from ≤ year
  fits : rest < year_days year
  exact : days_before_year year + rest ≡ days_before_year from + days

year_loop_lem :
    (fuel days y : ℕ)
    → days < 365 * fuel
    → 1970 ≤ y
    → let (year, rest) = year_loop fuel days y in YearSplit days y year rest
unfolding year_loop
year_loop_lem zero days y h s = absurd (omega arith)
year_loop_lem (suc fuel) days y h s = elim (Bool-cases (ltb days (year_days y))) [
  | inl l ↦ rw l (record { later = omega arith; fits = ltb→lt days (year_days y) l; exact = refl })
  | inr g ↦
      let over = ltb→ge days (year_days y) g in
      let rest =
        year_loop_lem fuel (days - year_days y) (y + 1)
          (omega (arith, (year_days-bounds y).0, over)) (omega arith) in
      rw g (record {
        later = omega (arith, rest.later);
        fits = rest.fits;
        exact = omega (arith, rest.exact, next_year y s, over);
      })
]

record MonthSplit (mlens : List ℕ) (days from month rest : ℕ) : Type 0 where
  later : from ≤ month
  within : month < from + length mlens
  fits : rest < get_or mlens (month - from) 0
  exact : total (take (month - from) mlens) + rest ≡ days

month_loop_lem :
    (mlens : List ℕ) (days m : ℕ)
    → days < total mlens
    → let (month, rest) = month_loop mlens days m in MonthSplit mlens days m month rest
unfolding month_loop
month_loop_lem [] days m h = absurd (omega arith)
month_loop_lem (mlen ∷ mlens) days m h = elim (Bool-cases (ltb days mlen)) [
  | inl l ↦
      let here : m - m ≡ 0 = omega arith in
      rw l (record {
        later = omega arith;
        within = omega arith;
        fits = rw here (ltb→lt days mlen l);
        exact = rw here (omega arith);
      })
  | inr g ↦
      let over = ltb→ge days mlen g in
      let month = (month_loop mlens (days - mlen) (m + 1)).0 in
      let rest = month_loop_lem mlens (days - mlen) (m + 1) (omega (arith, over)) in
      let shift : month - m ≡ suc (month - (m + 1)) = omega (arith, rest.later) in
      rw g (record {
        later = omega (arith, rest.later);
        within = omega (arith, rest.within);
        fits = rw shift rest.fits;
        exact = rw shift (omega (arith, rest.exact, over));
      })
]

-- The date of a day since 1970.
pub record IsDate (days : ℕ) (date : ℕ × ℕ × ℕ) : Type 0 where
  pub year_from : 1970 ≤ date.0
  pub month_from : 1 ≤ date.1
  pub month_to : date.1 ≤ 12
  pub day_from : 1 ≤ date.2
  pub day_to : date.2 ≤ get_or (month_days date.0) (date.1 - 1) 0
  pub exact : days_before_year date.0 + days_before_month date.0 date.1 + (date.2 - 1) ≡ days

length-month_days : (y : ℕ) → length (month_days y) ≡ 12
unfolding month_days
length-month_days y = elim (Bool-cases (is_leap y)) [ inl e ↦ rw e refl | inr e ↦ rw e refl ]

-- The loops end on the fuel that they are given, with a date: `days_to_ymd` gives a month from 1 to
-- 12 and a day from 1 to that month's length in that year, and the days before the year, counted by
-- a formula over all leap years, the lengths of the months before and the days before this one
-- make up the days since 1970. The date that governance prints has a day less, from 0 on.
pub days_to_ymd-IsDate :
    (days : ℕ)
    → IsDate days (days_to_ymd days)
      × (let (year, month, day) = days_to_ymd days in split_date days ≡ (year, month, day - 1))
unfolding days_to_ymd split_date
days_to_ymd-IsDate days =
    let year = (year_loop (days / 365 + 1) days 1970).0 in
    let left = (year_loop (days / 365 + 1) days 1970).1 in
    let ys = year_loop_lem (days / 365 + 1) days 1970 (omega arith) (omega arith) in
    let ms =
      month_loop_lem (month_days year) left 1 (omega (arith, ys.fits, total-month_days year)) in
    let day = (month_loop (month_days year) left 1).1 in
    let back : day + 1 - 1 ≡ day = omega arith in
    (
      record {
        year_from = ys.later;
        month_from = ms.later;
        month_to = omega (arith, ms.within, length-month_days year);
        day_from = omega arith;
        day_to = omega (arith, ms.fits);
        exact = omega (arith, ys.exact, ms.exact);
      },
      rw back refl,
    )
