-- ===== src/Tests/AccessLogs.antt =====
-- The access logs of the load balancer: runs of `Parse` and `ConvertToCSV`, and the theorem at
-- concrete files.
use aws_k8s_tester.Common.{String, List, [], ◌∷◌, map, ◌≡◌, refl, none, some, str_eq, if◌then◌else◌}
use aws_k8s_tester.Runtime.Outside.{done, failed}
use aws_k8s_tester.Runtime.Action.{ok, err}
use aws_k8s_tester.Runtime.Chain.{then_do}
use aws_k8s_tester.AlbLog.Entry.{line, end_of_file, Library, split_log, read_logs, parse}
use aws_k8s_tester.AlbLog.Table.{log_header, to_row, read_rows, read_files, save, convert_to_csv}
use aws_k8s_tester.AlbLog.Agrees.{texts, parse_files, convert_to_csv-parse_files}

abbrev request : List String
request =
    "0" ∷ "1" ∷ "2" ∷ "3" ∷ "4" ∷ "5" ∷ "6" ∷ "7" ∷ "8" ∷ "9" ∷ "10" ∷ "11" ∷ "12" ∷ "13" ∷ "14"
    ∷ "15" ∷ "16" ∷ "17" ∷ "18" ∷ "19" ∷ "20" ∷ "21" ∷ "22" ∷ "23" ∷ []

abbrev library : Library
library = record {
  open_file = λ p.
      if str_eq p "none"
      then failed "no such file"
      else if str_eq p "short"
      then done (line "short" (end_of_file ""))
      else done (line "request" (line "request" (end_of_file "request")));
  read_all = λ l. if str_eq l "request" then done (request ∷ []) else done ((l ∷ []) ∷ []);
  float = λ s. 0;
  decimal = λ n. "1";
  open_truncated = λ p. some "no such file";
  create = λ p. none;
  write = λ row. none;
  write_all = λ rows. none;
  flushed = none;
}

-- The third request has no end of its line.
unended_is_dropped :
    convert_to_csv library "out" ("full" ∷ []) ≡ ok (log_header ∷ request ∷ request ∷ [])
unfolding convert_to_csv read_files read_rows split_log to_row save
unended_is_dropped = refl

short_is_refused :
    convert_to_csv library "out" ("full" ∷ "short" ∷ "none" ∷ [])
    ≡ err "short fields 1, expected 24"
unfolding convert_to_csv read_files read_rows split_log to_row save
short_is_refused = refl

missing_is_refused : parse library "none" ≡ err "no such file"
unfolding parse read_logs
missing_is_refused = refl

convert_to_csv-parse_files_example :
    convert_to_csv library "out" ("full" ∷ "full" ∷ [])
    ≡ then_do
        (parse_files library ("full" ∷ "full" ∷ []))
        λ logs. save library log_header (map texts logs) "out"
convert_to_csv-parse_files_example = convert_to_csv-parse_files library "out" ("full" ∷ "full" ∷ [])
