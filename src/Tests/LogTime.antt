-- ===== src/Tests/LogTime.antt =====
-- The head of a line of the log at one time.
use ipop_tincan.Prelude.{◌≡◌, refl, arith, codes, length}
use ipop_tincan.LogTime.{LocalTime, IsLocalTime, print_time, read_time, read_time-print_time}
use ipop_tincan.Text.Decimal.{padded, decimal}

abbrev noon : LocalTime
noon = record { tm_mon = 2; tm_mday = 14; tm_hour = 12; tm_min = 0; tm_sec = 7; tv_usec = 5035 }

noon-IsLocalTime : IsLocalTime noon
noon-IsLocalTime = record {
  month = omega arith;
  day = omega arith;
  hour = omega arith;
  minute = omega arith;
  second = omega arith;
  microsecond = omega arith;
}

noon_printed : print_time noon ≡ codes "[03/14 12:00:07.005035] "
unfolding print_time padded decimal
noon_printed = refl

read_time-print_time_example :
    (length (print_time noon) ≡ 24) × (read_time (print_time noon) ≡ noon)
read_time-print_time_example = read_time-print_time noon noon-IsLocalTime
