-- ===== src/Analyzer/Dast/Report.antt =====
-- internal/analyzer/dast/helpers.go and types.go: the behaviour report of a trace.
use oblak.Prelude.{
  if◌then◌else◌, take, drop, ℕ, Bool, true, false, not, ◌&&◌, Option, none, some, List, [], ◌∷◌,
  ◌++◌,
}
use oblak.Text.{Bytes, codes}
use oblak.Analyzer.Dast.Search.{index_byte, contains_str, split_lines}
use oblak.Analyzer.Dast.Fields.{
  extract_timestamp, extract_body, extract_path, extract_flags, extract_net_detail,
  extract_exec_args, return_value, timestamp_before, is_one_of, is_noisy_fs_path,
}

pub record FsEvent : Type 0 where
  pub timestamp : Bytes
  pub op : Bytes
  pub path : Bytes
  pub flags : Bytes
  pub result : Bytes

pub record NetEvent : Type 0 where
  pub timestamp : Bytes
  pub op : Bytes
  pub detail : Bytes
  pub result : Bytes

pub record ProcEvent : Type 0 where
  pub timestamp : Bytes
  pub op : Bytes
  pub args : Bytes
  pub result : Bytes

pub record BehaviorReport : Type 0 where
  pub fs_access : List FsEvent
  pub net_events : List NetEvent
  pub proc_events : List ProcEvent

unfoldable pub find_handler_start_time : List Bytes → Bytes
find_handler_start_time [] = []
find_handler_start_time (line ∷ lines) =
    let body = extract_body line in
    if contains_str line (codes " X ")
      && contains_str body (codes "execve")
      && contains_str body (codes "import handler")
    then extract_timestamp line
    else find_handler_start_time lines

abbrev pub fs_ops : List Bytes
fs_ops =
    codes "open"
    ∷ codes "openat"
    ∷ codes "read"
    ∷ codes "write"
    ∷ codes "stat"
    ∷ codes "fstat"
    ∷ codes "lstat"
    ∷ codes "rename"
    ∷ codes "unlink"
    ∷ codes "mkdir"
    ∷ codes "rmdir"
    ∷ []

abbrev pub net_ops : List Bytes
net_ops =
    codes "socket"
    ∷ codes "connect"
    ∷ codes "bind"
    ∷ codes "listen"
    ∷ codes "accept"
    ∷ codes "sendto"
    ∷ codes "recvfrom"
    ∷ codes "sendmsg"
    ∷ codes "recvmsg"
    ∷ []

abbrev pub proc_ops : List Bytes
proc_ops = codes "execve" ∷ codes "vfork" ∷ codes "clone" ∷ codes "kill" ∷ codes "exit_group" ∷ []

abbrev add_fs : Bytes → Bytes → Bytes → Bytes → Bytes → BehaviorReport → BehaviorReport
add_fs ts op args ret path r = if is_noisy_fs_path path then r else record r {
  fs_access =
      r.fs_access
      ++ record { timestamp = ts; op = op; path = path; flags = extract_flags args; result = ret }
        ∷ [];
}

-- The switch over the name of the call.
unfoldable pub add_event : Bytes → Bytes → Bytes → Bytes → BehaviorReport → BehaviorReport
add_event ts op args ret r =
    if is_one_of op fs_ops
    then add_fs ts op args ret (extract_path args) r
    else if is_one_of op net_ops
    then record r {
      net_events =
          r.net_events
          ++ record { timestamp = ts; op = op; detail = extract_net_detail args; result = ret }
            ∷ [];
    }
    else if is_one_of op proc_ops
    then record r {
      proc_events =
          r.proc_events
          ++ record { timestamp = ts; op = op; args = extract_exec_args args; result = ret } ∷ [];
    }
    else r

-- A body with no parenthesis, the empty one included, names no call.
unfoldable pub add_call : Bytes → Bytes → Option ℕ → BehaviorReport → BehaviorReport
add_call ts body none r = r
add_call ts body (some paren) r =
    add_event ts (take paren body) (drop paren body) (return_value body) r

abbrev pub is_empty : Bytes → Bool
is_empty [] = true
is_empty (c ∷ s) = false

-- One round of the loop over the lines.
unfoldable pub parse_line : Bytes → BehaviorReport → Bytes → BehaviorReport
parse_line start r line =
    let ts = extract_timestamp line in
    let body = extract_body line in
    if not (contains_str line (codes " X "))
    then r
    else if not (is_empty start) && timestamp_before ts start
    then r
    else if is_empty body
    then r
    else add_call ts body (index_byte body b'(') r

unfoldable pub parse_lines : Bytes → BehaviorReport → List Bytes → BehaviorReport
parse_lines start r [] = r
parse_lines start r (line ∷ lines) = parse_lines start (parse_line start r line) lines

abbrev pub empty_report : BehaviorReport
empty_report = record { fs_access = []; net_events = []; proc_events = [] }

unfoldable pub parse_behavior_report : Bytes → BehaviorReport
unfolding parse_lines find_handler_start_time
parse_behavior_report raw =
    let lines = split_lines raw in parse_lines (find_handler_start_time lines) empty_report lines
