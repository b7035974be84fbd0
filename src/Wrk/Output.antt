-- ===== src/Wrk/Output.antt =====
-- pkg/wrk/wrk.go: `Result`, and what of Go's libraries is called on texts and numbers.
use aws_k8s_tester.Common.{ℕ, String, Bool, List}
use aws_k8s_tester.Common.Int.{ℤ}

-- A float64 is given by its 64 bits; a uint64 is below 2 ^ 64.
pub record Output : Type 0 where
  pub output : String
  pub duration : ℤ
  pub endpoint : String
  pub threads : ℤ
  pub connections : ℤ
  pub total_took : ℤ
  pub requests_per_sec : ℕ
  pub transfer_per_sec : String
  pub transfer_per_sec_bytes : ℕ
  pub total_requests : ℕ
  pub total_read_data : String
  pub total_read_data_bytes : ℕ
  pub latency_50_pct : ℤ
  pub latency_75_pct : ℤ
  pub latency_90_pct : ℤ
  pub latency_99_pct : ℤ
  pub latency_avg_ms : ℕ
  pub latency_avg : ℤ
  pub requests_per_sec_avg : ℕ
  pub latency_stdev : ℤ
  pub requests_per_sec_stdev : ℕ
  pub latency_max : ℤ
  pub requests_per_sec_max : ℕ
  pub errors_connect : ℤ
  pub errors_read : ℤ
  pub errors_write : ℤ
  pub errors_timeout : ℤ

-- The values that the parsers of numbers return when their error is dropped, and whether there is one.
pub record Library : Type 0 where
  pub lines : String → List String
  pub split : String → String → List String
  pub trim_space : String → String
  pub fields : String → List String
  pub replace_all : String → String → String → String
  pub has_suffix : String → String → Bool
  pub quoted : String → String
  pub duration : String → ℤ
  pub int : String → ℤ
  pub uint : String → ℕ
  pub float : String → ℕ
  pub float_fails : String → Bool
  pub bytes : String → ℕ
  pub milliseconds : ℤ → ℕ
  pub float_add : ℕ → ℕ → ℕ
  pub float_half : ℕ → ℕ
  pub float_thousand : ℕ → ℕ
  -- `humanize.Bytes`, `%d`, `%v` and `%f`
  pub bytes_text : ℕ → String
  pub decimal : ℕ → String
  pub decimal_ℤ : ℤ → String
  pub duration_text : ℤ → String
  pub float_text : ℕ → String
