-- ===== src/Runtime/Time.antt =====
-- Go's durations, in nanoseconds.
use aws_k8s_tester.Common.{ℕ}

abbrev pub millisecond : ℕ
millisecond = 1_000_000

abbrev pub second : ℕ
second = 1_000_000_000

abbrev pub minute : ℕ
minute = 60_000_000_000
