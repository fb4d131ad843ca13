-- ===== src/Datetime.antt =====
-- Python's `datetime`, as far as the service uses it: the date that `date().isoformat()` prints,
-- and the order by instants that the queries sort by.
use higgsfield_memory_servic.Prelude.{ℕ, ◌+◌, ◌*◌, ◌++◌}
use higgsfield_memory_servic.Text.{Text, codes, two_digits, four_digits}

pub record Datetime : Type 0 where
  pub year : ℕ
  pub month : ℕ
  pub day : ℕ
  pub micros : ℕ

-- A number that grows with time.
unfoldable pub instant : Datetime → ℕ
instant d = ((d.year * 13 + d.month) * 32 + d.day) * 86400000000 + d.micros

-- `d.date().isoformat()`
unfoldable pub iso_date : Datetime → Text
iso_date d =
    four_digits d.year ++ (codes "-" ++ (two_digits d.month ++ (codes "-" ++ two_digits d.day)))
