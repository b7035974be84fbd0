-- ===== src/AlbLog/Entry.antt =====
-- internal/alb-log/alb-log.go: the entries of an access log, and `Parse`.
use aws_k8s_tester.Common.{ℕ, String, ◌<>◌, List, [], ◌∷◌, ◌++◌, length, Option}
use aws_k8s_tester.Runtime.Outside.{Reply, done, failed}
use aws_k8s_tester.Runtime.Action.{Result, ok, err}
use aws_k8s_tester.Runtime.Chain.{then_do}

-- A float64 is given by its 64 bits.
pub record Log : Type 0 where
  pub log_type : String
  pub timestamp : String
  pub elb : String
  pub client_port : String
  pub target_port : String
  pub request_processing_time : String
  pub request_processing_time_seconds : ℕ
  pub target_processing_time : String
  pub target_processing_time_seconds : ℕ
  pub response_processing_time : String
  pub response_processing_time_seconds : ℕ
  pub elb_status_code : String
  pub target_status_code : String
  pub received_bytes : String
  pub sent_bytes : String
  pub request : String
  pub user_agent : String
  pub ssl_cipher : String
  pub ssl_protocol : String
  pub target_group_arn : String
  pub trace_id : String
  pub domain_name : String
  pub chosen_cert_arn : String
  pub matched_rule_priority : String
  pub request_creation_time : String
  pub actions_executed : String
  pub redirect_url : String

-- What the calls of `ReadString` on a file give, in their order. The last one gives the text behind
-- the last end of a line.
pub data Reads : Type 0 where
  line : String → Reads → Reads
  broken : String → Reads
  end_of_file : String → Reads

-- `os.OpenFile` for reading, the rows of a line by `encoding/csv`, the numbers, and the calls of
-- `csvutil.Save`, each of which may have an error.
pub record Library : Type 0 where
  pub open_file : String → Reply Reads
  pub read_all : String → Reply (List (List String))
  pub float : String → ℕ
  pub decimal : ℕ → String
  pub open_truncated : String → Option String
  pub create : String → Option String
  pub write : List String → Option String
  pub write_all : List (List String) → Option String
  pub flushed : Option String

module _ (g : Library) where
  -- `splitLog`
  abbrev pub one_row : List (List String) → Result (List String)
  one_row (row ∷ []) = ok row
  one_row rows = err ("expected one row from line, got " <> g.decimal (length rows))

  abbrev pub split_rows : Reply (List (List String)) → Result (List String)
  split_rows (done rows) = one_row rows
  split_rows (failed e) = err e

  unfoldable pub split_log : String → Result (List String)
  split_log l = split_rows (g.read_all l)

  abbrev pub wrong_number : String → List String → String
  wrong_number l fields = l <> (" fields " <> (g.decimal (length fields) <> ", expected 24"))

  -- The entry of a line of 24 fields, and an error for any other number.
  unfoldable pub to_log : String → List String → Result Log
  to_log l
        (a0 ∷ a1 ∷ a2 ∷ a3 ∷ a4 ∷ a5 ∷ a6 ∷ a7 ∷ a8 ∷ a9 ∷ a10 ∷ a11 ∷ a12 ∷ a13 ∷ a14 ∷ a15 ∷ a16
          ∷ a17 ∷ a18 ∷ a19 ∷ a20 ∷ a21 ∷ a22 ∷ a23 ∷ []) =
      ok record {
        log_type = a0;
        timestamp = a1;
        elb = a2;
        client_port = a3;
        target_port = a4;
        request_processing_time = a5;
        request_processing_time_seconds = g.float a5;
        target_processing_time = a6;
        target_processing_time_seconds = g.float a6;
        response_processing_time = a7;
        response_processing_time_seconds = g.float a7;
        elb_status_code = a8;
        target_status_code = a9;
        received_bytes = a10;
        sent_bytes = a11;
        request = a12;
        user_agent = a13;
        ssl_cipher = a14;
        ssl_protocol = a15;
        target_group_arn = a16;
        trace_id = a17;
        domain_name = a18;
        chosen_cert_arn = a19;
        matched_rule_priority = a20;
        request_creation_time = a21;
        actions_executed = a22;
        redirect_url = a23;
      }
  to_log l fields = err (wrong_number l fields)

  -- The loop of `Parse`. A text behind the last end of a line is not read.
  unfoldable pub read_logs : Reads → List Log → Result (List Log)
  unfolding split_log to_log
  read_logs (line l rest) logs =
      then_do (split_log l)
        λ fields. then_do (to_log l fields) λ d. read_logs rest (logs ++ (d ∷ []))
  read_logs (broken e) logs = err e
  read_logs (end_of_file s) logs = ok logs

  abbrev pub parse_opened : Reply Reads → Result (List Log)
  unfolding read_logs
  parse_opened (done reads) = read_logs reads []
  parse_opened (failed e) = err e

  unfoldable pub parse : String → Result (List Log)
  parse p = parse_opened (g.open_file p)
