-- ===== src/Calendar/RoundTrip.antt =====
-- A date determines its day.
use pan.Prelude.{
  ℕ, ◌+◌, ◌-◌, ◌*◌, ◌/◌, ◌%◌, ◌≤◌, ◌<◌, ◌≡◌, refl, ◌∙◌, Bool, not, ◌&&◌, ◌||◌, ◌==◌, ==_iff, true,
  false, ltb→lt, inl, inr, ltb, leb, if◌then◌else◌, arith, Bool-cases,
}
use pan.Calendar.{civil_from_days, year_of_era, day_of_year}

-- The day of a date, counted from 1970-01-01: whole years and their leap days, then months and days.
unfoldable pub days_from_civil : ℕ × ℕ × ℕ → ℕ
days_from_civil (year, m, d) =
    let y = if leb m 2 then year - 1 else year in
    let mp = if leb m 2 then m + 9 else m - 3 in
    let yoe = y - y / 400 * 400 in
    y / 400 * 146097 + (yoe * 365 + yoe / 4 - yoe / 100 + ((153 * mp + 2) / 5 + (d - 1))) - 719468

-- The Gregorian calendar: which years have a leap day, and how many days a month has.
unfoldable pub is_leap : ℕ → Bool
is_leap year = (year % 4 == 0) && (not (year % 100 == 0) || (year % 400 == 0))

unfoldable pub days_in_month : ℕ → ℕ → ℕ
unfolding is_leap
days_in_month year month =
    if month == 2
    then if is_leap year then 29 else 28
    else if (month == 4) || ((month == 6) || ((month == 9) || (month == 11)))
    then 30
    else 31

-- A date of the calendar: a month of the year and a day of that month in that year.
pub record Dated (p : ℕ × ℕ × ℕ) : Type 0 where
  pub month_from : 1 ≤ p.1
  pub month_to : p.1 ≤ 12
  pub day_from : 1 ≤ p.2
  pub day_to : p.2 ≤ days_in_month p.0 p.1

year_of_era-bound : (doe : ℕ) → doe < 146097 → year_of_era doe < 400
year_of_era-bound doe h = omega arith

day_of_year-split :
    (doe : ℕ)
    → doe < 146097
    → year_of_era doe * 365 + year_of_era doe / 4 - year_of_era doe / 100 + day_of_year doe ≡ doe
day_of_year-split doe h = omega arith

day_of_year-bound : (doe : ℕ) → doe < 146097 → day_of_year doe ≤ 365
day_of_year-bound doe h = omega arith

-- In an era, a year whose last day is the 366th from March ends with a leap day.
day_of_year-leap :
    (doe : ℕ)
    → doe < 146097
    → 365 ≤ day_of_year doe
    → ((year_of_era doe + 1) % 4 ≡ 0)
      × (((year_of_era doe + 1) % 100 ≡ 0) → ((year_of_era doe + 1) % 400 ≡ 0))
day_of_year-leap doe h k = (omega arith, λ c. omega arith)

is_leap-of_era :
    (era yoe : ℕ)
    → (yoe + 1) % 4 ≡ 0
    → (((yoe + 1) % 100 ≡ 0) → ((yoe + 1) % 400 ≡ 0))
    → is_leap (yoe + era * 400 + 1) ≡ true
unfolding is_leap
is_leap-of_era era yoe four century =
    let divided = (==_iff ((yoe + era * 400 + 1) % 4) 0).1 (omega arith) in
    elim (Bool-cases ((yoe + era * 400 + 1) % 100 == 0)) [
      | inl e ↦
          let whole = (==_iff ((yoe + era * 400 + 1) % 100) 0).0 e in
          let part = century (omega arith) in
          let quarter = (==_iff ((yoe + era * 400 + 1) % 400) 0).1 (omega arith) in
          rw (divided, e, quarter) refl
      | inr n ↦ rw (divided, n) refl
    ]

-- The date of a day of a year of an era.
date_of : ℕ → ℕ → ℕ → ℕ × ℕ × ℕ
date_of era yoe doy =
    let mp = (5 * doy + 2) / 153 in
    let m = if ltb mp 10 then mp + 3 else mp - 9 in
    (if leb m 2 then yoe + era * 400 + 1 else yoe + era * 400, m, doy - (153 * mp + 2) / 5 + 1)

-- The days of the ten months from March on, and of January.
days-late :
    (year doy : ℕ)
    → (5 * doy + 2) / 153 < 10
    → doy - (153 * ((5 * doy + 2) / 153) + 2) / 5 + 1 ≤ days_in_month year ((5 * doy + 2) / 153 + 3)
unfolding days_in_month
days-late year doy h = ground arith

days-early :
    (year doy : ℕ)
    → doy ≤ 365
    → 10 ≤ (5 * doy + 2) / 153
    → (365 ≤ doy → is_leap year ≡ true)
    → doy - (153 * ((5 * doy + 2) / 153) + 2) / 5 + 1 ≤ days_in_month year ((5 * doy + 2) / 153 - 9)
unfolding days_in_month
days-early year doy h k leap = elim (Bool-cases (is_leap year)) [
  | inl y ↦ ground arith
  | inr n ↦ ground arith
]

date_of-Dated :
    (era yoe doy : ℕ)
    → doy ≤ 365
    → (365 ≤ doy → is_leap (yoe + era * 400 + 1) ≡ true)
    → Dated (date_of era yoe doy)
unfolding date_of
date_of-Dated era yoe doy h leap =
    let mp = (5 * doy + 2) / 153 in
    elim (Bool-cases (ltb mp 10)) [
      | inl e ↦
          let small = ltb→lt mp 10 e in
          let late : leb (mp + 3) 2 ≡ false = ground arith in
          record {
            month_from = rw e (omega arith);
            month_to = rw e (omega arith);
            day_from = omega arith;
            day_to = rw (e, late) (days-late (yoe + era * 400) doy small);
          }
      | inr e ↦
          let large : 10 ≤ mp = ground arith in
          let early : leb (mp - 9) 2 ≡ true = ground arith in
          record {
            month_from = rw e (omega arith);
            month_to = rw e (omega arith);
            day_from = omega arith;
            day_to = rw (e, early) (days-early (yoe + era * 400 + 1) doy h large leap);
          }
    ]

days_from_civil-date_of :
    (era yoe doy : ℕ)
    → yoe < 400
    → doy ≤ 365
    → days_from_civil (date_of era yoe doy)
      ≡ era * 146097 + (yoe * 365 + yoe / 4 - yoe / 100 + doy) - 719468
unfolding date_of days_from_civil
days_from_civil-date_of era yoe doy k h =
    let mp = (5 * doy + 2) / 153 in
    elim (Bool-cases (ltb mp 10)) [
      | inl e ↦
          let small = ltb→lt mp 10 e in
          let late : leb (mp + 3) 2 ≡ false = ground arith in rw (e, late) (omega arith)
      | inr e ↦
          let large : 10 ≤ mp = ground arith in
          let early : leb (mp - 9) 2 ≡ true = ground arith in rw (e, early) (omega arith)
    ]

-- The date of each day is one of the Gregorian calendar, with a month from 1 to 12 and a day that this
-- month has in this year, leap years included, and the day is found again from its date.
pub days_from_civil-civil_from_days :
    (days : ℕ) → Dated (civil_from_days days) × (days_from_civil (civil_from_days days) ≡ days)
unfolding civil_from_days date_of
days_from_civil-civil_from_days days =
    let z = days + 719468 in
    let era = z / 146097 in
    let doe = z - era * 146097 in
    let small : doe < 146097 = omega arith in
    let yoe_bound = year_of_era-bound doe small in
    let split = day_of_year-split doe small in
    let doy_bound = day_of_year-bound doe small in
    let found =
      days_from_civil-date_of era (year_of_era doe) (day_of_year doe) yoe_bound doy_bound in
    let whole : era * 146097
          + (year_of_era doe * 365 + year_of_era doe / 4 - year_of_era doe / 100 + day_of_year doe)
          - 719468
        ≡ days =
      rw split (omega arith) in
    let leap : 365 ≤ day_of_year doe → is_leap (year_of_era doe + era * 400 + 1) ≡ true = λ k.
      let (four, century) = day_of_year-leap doe small k in
      is_leap-of_era era (year_of_era doe) four century in
    (date_of-Dated era (year_of_era doe) (day_of_year doe) doy_bound leap, found ∙ whole)
