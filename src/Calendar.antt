-- ===== src/Calendar.antt =====
-- Python's `datetime.date` and `calendar.monthrange`, as backend/app/modules/loan/servicing.py uses
-- them, and `add_months` of that file.
pub mod Months
use credit_iq_ai.Prelude.{
  ℕ, zero, suc, ◌+◌, ◌-◌, ◌*◌, ◌/◌, ◌%◌, min, Bool, true, false, not, ◌&&◌, ◌||◌, ltb, leb, ◌==◌,
  if◌then◌else◌,
}
use credit_iq_ai.Errors.{Result, ok, err, value_error}
use credit_iq_ai.Store.{Date}

abbrev pub max_year : ℕ
max_year = 9999

unfoldable pub is_leap : ℕ → Bool
is_leap y = y % 4 == 0 && (not (y % 100 == 0) || y % 400 == 0)

-- `calendar.monthrange(year, month)[1]`
unfoldable pub days_in_month : ℕ → ℕ → ℕ
unfolding is_leap
days_in_month y m =
    if m == 2
    then (if is_leap y then 29 else 28)
    else if m == 4 || m == 6 || m == 9 || m == 11
    then 30
    else 31

-- The constructor `date(year, month, day)`.
unfoldable pub make_date : ℕ → ℕ → ℕ → Result Date
make_date y m d =
    if not (leb 1 y && leb y max_year)
    then err (value_error "year is out of range")
    else if not (leb 1 m && leb m 12)
    then err (value_error "month must be in 1..12")
    else if not (leb 1 d && leb d (days_in_month y m))
    then err (value_error "day is out of range for month")
    else ok (record { year = y; month = m; day = d })

-- Add calendar months while preserving the last valid day of month. A date's month is at least 1,
-- so the truncated `-` is exact.
unfoldable pub add_months : Date → ℕ → Result Date
unfolding make_date
add_months value months =
    let month_index = value.month - 1 + months in
    let year = value.year + month_index / 12 in
    let month = month_index % 12 + 1 in
    make_date year month (min value.day (days_in_month year month))

-- The order of dates.
unfoldable pub date_le : Date → Date → Bool
date_le a b =
    ltb a.year b.year
    || (a.year == b.year && (ltb a.month b.month || (a.month == b.month && leb a.day b.day)))

abbrev days_before_year : ℕ → ℕ
days_before_year y = let p = y - 1 in p * 365 + p / 4 - p / 100 + p / 400

-- The days of `left` months from month `m` on.
days_of_months : ℕ → ℕ → ℕ → ℕ
days_of_months y zero m = 0
days_of_months y (suc left) m = days_in_month y m + days_of_months y left (m + 1)

-- `date.toordinal`: day 1 is 1 January of year 1.
unfoldable pub to_ordinal : Date → ℕ
unfolding days_of_months days_in_month
to_ordinal d = days_before_year d.year + days_of_months d.year (d.month - 1) 1 + d.day

abbrev next_day : Date → Result Date
next_day d =
    if ltb d.day (days_in_month d.year d.month)
    then ok (record d { day = d.day + 1 })
    else if ltb d.month 12
    then ok (record d { month = d.month + 1; day = 1 })
    else if ltb d.year max_year
    then ok (record { year = d.year + 1; month = 1; day = 1 })
    else err (value_error "date value out of range")

-- `d + timedelta(days=n)`
unfoldable pub add_days : ℕ → Date → Result Date
unfolding days_in_month
add_days zero d = ok d
add_days (suc n) d = elim (next_day d) [ ok e ↦ add_days n e | err x ↦ err x ]
