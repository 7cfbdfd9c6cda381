-- ===== src/Examples/Calendar.antt =====
-- The calendar at the last day of a February.
use pan.Prelude.{◌≡◌}
use pan.Calendar.{civil_from_days}
use pan.Calendar.RoundTrip.{Dated, days_from_civil, days_from_civil-civil_from_days}

-- 2024-02-29
days_from_civil-civil_from_days_example :
    Dated (civil_from_days 19782) × (days_from_civil (civil_from_days 19782) ≡ 19782)
days_from_civil-civil_from_days_example = days_from_civil-civil_from_days 19782
