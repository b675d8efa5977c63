-- ===== src/Examples/Traces.antt =====
-- Runs of the trace parser on concrete lines.
use oblak.Prelude.{err, ok, ◌≡◌, refl, true, false, some, [], ◌∷◌, ◌++◌}
use oblak.Text.{Bytes, codes, bytes_eq, has_prefix, contains}
use oblak.Analyzer.Dast.Search.{index_byte, index_str, contains_str, split_lines, trim_space}
use oblak.Analyzer.Dast.Fields.{
  is_clock, extract_timestamp, last_bracket, extract_body, extract_path, extract_flags,
  extract_net_detail, return_value, timestamp_before, is_one_of, is_noisy_fs_path,
}
use oblak.Analyzer.Dast.Lines.{Exit}
use oblak.Analyzer.Dast.Coverage.{pick, start_of, report_of}
use oblak.Analyzer.Dast.Sandbox.{Docker}
use oblak.Analyzer.Dast.Report.{add_event, add_call, parse_line, parse_behavior_report}

abbrev open_line : Bytes
open_line =
    codes
      "I0521 22:49:06.655741  1 strace.go:605] [  1:  1] python X openat(AT_FDCWD /tmp, 0x7e /etc/passwd, O_RDONLY|O_CREAT, 0o0) = 3 (0x3) (10us)"

abbrev connect_line : Bytes
connect_line =
    codes
      "I0521 22:49:07.1 1 strace.go:605] [  1:  1] python X connect(0x3 socket:[1], 0x7e {Family: AF_INET, Addr: 8.8.8.8, Port: 53}, 0x10) = 0 (0x0) (9us)"

open_line_body : return_value (extract_body open_line) ≡ codes "3"
unfolding return_value extract_body last_bracket has_prefix index_str trim_space index_byte
open_line_body = refl

connect_line_report :
    (parse_behavior_report (connect_line ++ 10 ∷ open_line)).net_events
    ≡ record {
      timestamp = codes "22:49:07.1";
      op = codes "connect";
      detail = codes "8.8.8.8:53";
      result = codes "0";
    }
      ∷ []
unfolding parse_behavior_report parse_line add_event return_value extract_body last_bracket
    has_prefix index_str trim_space index_byte contains_str split_lines extract_timestamp bytes_eq
    extract_net_detail timestamp_before is_noisy_fs_path contains extract_path extract_flags
    is_clock add_call is_one_of
connect_line_report = refl

abbrev connect_exit : Exit
connect_exit = record {
  head = codes "I0521";
  stamp = codes "22:49:07.1";
  place = codes "1 strace.go:605] [  1:  1";
  process = codes "python";
  op = codes "connect";
  args = codes "0x3, 0x7e {Addr: 8.8.8.8, Port: 53}";
  ret = codes "0";
  note = codes "0x0) (9us)";
}

connect_exit_report :
    (report_of (start_of (connect_exit ∷ [])) (connect_exit ∷ [])).net_events
    ≡ record {
      timestamp = codes "22:49:07.1";
      op = codes "connect";
      detail = codes "8.8.8.8:53";
      result = codes "0";
    }
      ∷ []
unfolding start_of pick is_one_of extract_net_detail index_str has_prefix bytes_eq index_byte
    contains_str trim_space timestamp_before
connect_exit_report = refl

-- The log directory stays as it was for two reads.
abbrev unwatched : Docker
unwatched = record {
  snapshot = ok (codes "a.boot.txt" ∷ []);
  created = some 7;
  started = true;
  polls = ok (codes "a.boot.txt" ∷ []) ∷ ok (codes "a.boot.txt" ∷ []) ∷ [];
  wait_failed = false;
  logs = some (some (codes "out", []));
  boot_file = λ _. err (codes "no such file");
}
