-- ===== src/Calendar/Months.antt =====
-- `add_months` keeps the day where the month has it, and never leaves the calendar.
use credit_iq_ai.Prelude.{◌≡◌, ℕ, ◌+◌, ◌-◌, ◌*◌, ◌≤◌, ◌/◌, ◌%◌, min, arith}
use credit_iq_ai.Errors.{ok}
use credit_iq_ai.Store.{Date}
use credit_iq_ai.Calendar.{max_year, days_in_month, make_date, add_months}

-- A date that `datetime.date` can hold.
pub record IsDate (d : Date) : Type 0 where
  pub year_pos : 1 ≤ d.year
  pub year_le : d.year ≤ max_year
  pub month_pos : 1 ≤ d.month
  pub month_le : d.month ≤ 12
  pub day_pos : 1 ≤ d.day
  pub day_le : d.day ≤ days_in_month d.year d.month

pub days_in_month_range : (y m : ℕ) → (28 ≤ days_in_month y m) × (days_in_month y m ≤ 31)
unfolding days_in_month
days_in_month_range y m = ground arith

make_date_inv :
    (y m d : ℕ) {e : Date}
    → make_date y m d ≡ ok e
    → IsDate e × (e.year ≡ y) × (e.month ≡ m) × (e.day ≡ d)
unfolding make_date
make_date_inv y m d h = ground arith

make_date_total :
    (y m d : ℕ)
    → 1 ≤ y
    → y ≤ max_year
    → 1 ≤ m
    → m ≤ 12
    → 1 ≤ d
    → d ≤ days_in_month y m
    → make_date y m d ≡ ok (record { year = y; month = m; day = d })
unfolding make_date
make_date_total y m d a b c e f g = ground arith

abbrev pub month_number : Date → ℕ
month_number d = d.year * 12 + d.month

-- From a real date, adding months gives a real date exactly that many months later, with the day
-- kept or, in a shorter month, cut to its last day.
pub add_months_lem :
    (d : Date) (n : ℕ) {e : Date}
    → IsDate d
    → add_months d n ≡ ok e
    → IsDate e
      × (month_number e ≡ month_number d + n)
      × (e.day ≡ min d.day (days_in_month e.year e.month))
unfolding add_months
add_months_lem d n {e} v h =
    let index = d.month - 1 + n in
    let year = d.year + index / 12 in
    let month = index % 12 + 1 in
    let (real, y, m, day) =
      make_date_inv year month (min d.day (days_in_month year month)) {e = e} h in
    (real, omega arith, rw (y, m) day)

-- It fails only past the last year of the calendar.
pub add_months_total :
    (d : Date) (n : ℕ)
    → IsDate d
    → month_number d + n ≤ 12 * max_year + 12
    → (e : Date) × (add_months d n ≡ ok e)
unfolding add_months
add_months_total d n v h =
    let index = d.month - 1 + n in
    let y = d.year + index / 12 in
    let m = index % 12 + 1 in
    let range = days_in_month_range y m in
    (
      record { year = y; month = m; day = min d.day (days_in_month y m) },
      make_date_total y m (min d.day (days_in_month y m)) (omega arith) (omega arith) (omega arith)
          (omega arith) (omega arith) (omega arith),
    )
