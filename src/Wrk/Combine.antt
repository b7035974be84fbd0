-- ===== src/Wrk/Combine.antt =====
-- pkg/wrk/wrk.go: `Combine`.
use aws_k8s_tester.Common.{ℕ, ◌+◌, ◌%◌, List, [], ◌∷◌, foldl}
use Prim.Native.Nat.{◌/◌, suc}
use aws_k8s_tester.Common.Int.{ℤ, pos, negsuc, sub_ℕ, add64}
use aws_k8s_tester.Wrk.Output.{Output, Library}

-- `a + b` and `a / 2` of `uint64`; `a / 2` of `int64` rounds towards zero.
abbrev pub add_uint64 : ℕ → ℕ → ℕ
add_uint64 a b = (a + b) % 18446744073709551616

abbrev pub half_ℤ : ℤ → ℤ
half_ℤ (pos n) = pos (n / 2)
half_ℤ (negsuc n) = sub_ℕ 0 (suc n / 2)

abbrev average64 : ℤ → ℤ → ℤ
average64 a b = half_ℤ (add64 a b)

module _ (g : Library) where
  abbrev float_average : ℕ → ℕ → ℕ
  float_average a b = g.float_half (g.float_add a b)

  -- The result so far, and the next one.
  unfoldable pub combine_next : Output → Output → Output
  combine_next rs v = record rs {
    requests_per_sec = float_average rs.requests_per_sec v.requests_per_sec;
    transfer_per_sec_bytes = add_uint64 rs.transfer_per_sec_bytes v.transfer_per_sec_bytes / 2;
    transfer_per_sec =
        g.bytes_text (add_uint64 rs.transfer_per_sec_bytes v.transfer_per_sec_bytes / 2);
    total_requests = add_uint64 rs.total_requests v.total_requests;
    total_read_data_bytes = add_uint64 rs.total_read_data_bytes v.total_read_data_bytes / 2;
    total_read_data =
        g.bytes_text (add_uint64 rs.total_read_data_bytes v.total_read_data_bytes / 2);
    latency_avg_ms = float_average rs.latency_avg_ms v.latency_avg_ms;
    latency_avg = average64 rs.latency_avg v.latency_avg;
    requests_per_sec_avg = float_average rs.requests_per_sec_avg v.requests_per_sec_avg;
    latency_stdev = average64 rs.latency_stdev v.latency_stdev;
    requests_per_sec_stdev = float_average rs.requests_per_sec_stdev v.requests_per_sec_stdev;
    latency_max = average64 rs.latency_max v.latency_max;
    requests_per_sec_max = float_average rs.requests_per_sec_max v.requests_per_sec_max;
    errors_connect = add64 rs.errors_connect v.errors_connect;
    errors_read = add64 rs.errors_read v.errors_read;
    errors_write = add64 rs.errors_write v.errors_write;
    errors_timeout = add64 rs.errors_timeout v.errors_timeout;
  }

  abbrev without_percentiles : Output → Output
  without_percentiles rs = record rs {
    latency_50_pct = pos 0;
    latency_75_pct = pos 0;
    latency_90_pct = pos 0;
    latency_99_pct = pos 0;
  }

  -- `zero` is the zero value of the result, which no results give.
  unfoldable pub combine : Output → List Output → Output
  combine zero [] = without_percentiles zero
  combine zero (v ∷ vs) = without_percentiles (foldl combine_next v vs)
