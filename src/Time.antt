-- ===== src/Time.antt =====
-- Dates and nights: src/utils/index.ts.
pub mod Nights
use sojourn_backend.Prelude.{ℕ, ◌+◌, ◌-◌, ◌*◌, ◌/◌, ℤ, pos, sub_ℕ, leb, if◌then◌else◌}

-- 1000 * 3600 * 24, the milliseconds of a day
abbrev pub day : ℕ
day = 86400000

-- `Math.ceil((to - from) / day)`: rounded up, so towards zero when the second date is earlier.
unfoldable pub number_of_nights : ℕ → ℕ → ℤ
number_of_nights from to =
    if leb from to then pos ((to - from + 86399999) / day) else sub_ℕ 0 ((from - to) / day)
