-- ===== src/Log/Tests.antt =====
-- The theorems on src/linear_fcgi_log.cc at an input.
use linear_fcgi.Common.{ℕ, ◌≡◌, arith}
use linear_fcgi.Common.{Bool, true, List, some, codes}
use linear_fcgi.Log.{line}
use linear_fcgi.Log.Clock.{Local, IsLocal, numbers}
use linear_fcgi.Log.Records.{read_record, read_record-line}

abbrev opens : List ℕ → Bool
opens name = true

abbrev noon : Local
noon = record {
  tm_year = 114;
  tm_mon = 4;
  tm_mday = 9;
  tm_hour = 12;
  tm_min = 0;
  tm_sec = 7;
  tv_usec = 45999;
}

noon-IsLocal : IsLocal noon
noon-IsLocal = record {
  year_fits = omega arith;
  mon_fits = omega arith;
  mday_fits = omega arith;
  hour_fits = omega arith;
  min_fits = omega arith;
  sec_fits = omega arith;
  usec_fits = omega arith;
}

read_record-line_example :
    read_record (line (some noon) 2 (codes "slow\n")) ≡ (numbers noon, 2, codes "slow\n")
read_record-line_example =
    read_record-line noon 2 (codes "slow\n") noon-IsLocal (omega arith) (omega arith)
