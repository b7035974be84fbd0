-- ===== src/Tests/Requests.antt =====
-- The output of wrk: runs of `Parse` and `Combine`, and the theorems at concrete inputs.
use Prim.Native.String.{slice, len}
use text.Mathlib.Text.{find?}
use aws_k8s_tester.Common.{
  ℕ, zero, suc, ◌+◌, String, ◌<>◌, List, [], ◌∷◌, false, ◌≡◌, refl, Option, none, some, str_eq,
  contains, if◌then◌else◌, arith,
}
use aws_k8s_tester.Common.Int.{pos}
use aws_k8s_tester.Runtime.Action.{ok, panic}
use aws_k8s_tester.Wrk.Output.{Output, Library}
use aws_k8s_tester.Wrk.Parse.{
  nothing, parse, parse_lines, parse_line, parse_running, parse_threads, parse_latency, parse_req,
  parse_requests_in, parse_errors, parse_per_sec,
}
use aws_k8s_tester.Wrk.Quiet.{IsQuiet, Ends, parse-Ends}
use aws_k8s_tester.Wrk.Combine.{combine}
use aws_k8s_tester.Wrk.Totals.{combine_totals}

-- The pieces between the first occurrences of a separator, at most as many as the fuel.
pieces : String → String → (String → List String) → Option ℕ → List String
pieces sep s rest none = s ∷ []
pieces sep s rest (some i) = slice s 0 i ∷ rest (slice s (i + len sep) (len s))

cut : ℕ → String → String → List String
unfolding pieces
cut zero sep s = s ∷ []
cut (suc n) sep s = pieces sep s (cut n sep) (find? s sep)

non_empty : List String → List String
non_empty [] = []
non_empty (w ∷ ws) = if str_eq w "" then non_empty ws else w ∷ non_empty ws

joined : String → List String → String
joined sep [] = ""
joined sep (w ∷ []) = w
joined sep (w ∷ v ∷ ws) = w <> (sep <> joined sep (v ∷ ws))

number : String → ℕ
number s = if str_eq s "12" then 12 else if str_eq s "230174" then 230174 else 0

abbrev library : Library
unfolding cut non_empty joined number contains
library = record {
  lines = cut 20 "\n";
  split = λ s sep. cut 20 sep s;
  trim_space = λ s. joined " " (non_empty (cut 20 " " s));
  fields = λ s. non_empty (cut 20 " " s);
  replace_all = λ s old new. joined new (cut 20 old s);
  has_suffix = λ s t. false;
  quoted = λ s. s;
  duration = λ s. pos (number s);
  int = λ s. pos (number s);
  uint = number;
  float = number;
  float_fails = λ s. false;
  bytes = number;
  milliseconds = λ d. 0;
  float_add = λ a b. a + b;
  float_half = λ a. a;
  float_thousand = λ a. a;
  bytes_text = λ n. "";
  decimal = λ n. "";
  decimal_ℤ = λ n. "";
  duration_text = λ n. "";
  float_text = λ n. "";
}

abbrev sample : String
sample = "  12 threads and 12 connections\n  230174 requests in 12, 8.83GB read\nRequests/sec: 12"

abbrev parsed : Output
parsed = record (nothing library sample) {
  threads = pos 12;
  connections = pos 12;
  total_took = pos 12;
  requests_per_sec = 12;
  total_requests = 230174;
  total_read_data = "8.83GB";
}

parse_sample : parse library sample ≡ ok parsed
unfolding parse parse_lines parse_line parse_running parse_threads parse_latency parse_req
    parse_requests_in parse_errors parse_per_sec cut pieces non_empty joined number contains
parse_sample = refl

errors_panic :
    parse library "Socket errors: connect, read 0, write 0, timeout 60" ≡ panic "index out of range"
unfolding parse parse_lines parse_line parse_errors cut pieces non_empty joined number contains
errors_panic = refl

parse-Ends_example : Ends (IsQuiet sample) (parse library sample)
unfolding cut pieces non_empty joined number contains
parse-Ends_example = parse-Ends library sample (refl, (refl, (refl, tt)))

combine_totals_example :
    ((combine library parsed (parsed ∷ parsed ∷ parsed ∷ [])).total_requests ≡ 690522)
    × ((combine library parsed (parsed ∷ parsed ∷ parsed ∷ [])).threads ≡ pos 12)
    × ((combine library parsed (parsed ∷ parsed ∷ parsed ∷ [])).connections ≡ pos 12)
    × ((combine library parsed (parsed ∷ parsed ∷ parsed ∷ [])).endpoint ≡ "")
    × ((combine library parsed (parsed ∷ parsed ∷ parsed ∷ [])).latency_50_pct ≡ pos 0)
    × ((combine library parsed (parsed ∷ parsed ∷ parsed ∷ [])).latency_75_pct ≡ pos 0)
    × ((combine library parsed (parsed ∷ parsed ∷ parsed ∷ [])).latency_90_pct ≡ pos 0)
    × ((combine library parsed (parsed ∷ parsed ∷ parsed ∷ [])).latency_99_pct ≡ pos 0)
combine_totals_example = combine_totals library parsed parsed (parsed ∷ parsed ∷ []) (omega arith)
