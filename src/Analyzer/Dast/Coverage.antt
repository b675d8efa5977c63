-- ===== src/Analyzer/Dast/Coverage.antt =====
-- internal/analyzer/dast/helpers.go: the report of a trace holds what the calls of the trace say.
use oblak.Prelude.{
  if◌then◌else◌, ◌≡◌, Bool, true, false, not, ◌&&◌, none, List, [], ◌∷◌, ◌++◌, arith,
}
use oblak.Text.{Bytes, codes}
use oblak.Analyzer.Dast.Search.{contains_str, drop-add}
use oblak.Analyzer.Dast.Fields.{
  last_bracket, extract_body, extract_path, extract_flags, extract_net_detail, extract_exec_args,
  timestamp_before, is_one_of, is_noisy_fs_path,
}
use oblak.Analyzer.Dast.Report.{
  FsEvent, NetEvent, ProcEvent, BehaviorReport, fs_ops, net_ops, proc_ops, parse_line,
}
use oblak.Analyzer.Dast.Lines.{Exit, args_section, body, render, last_bracket-append}

abbrev fs_event : Exit → FsEvent
fs_event e = record {
  timestamp = e.stamp;
  op = e.op;
  path = extract_path (args_section e);
  flags = extract_flags (args_section e);
  result = e.ret;
}

abbrev net_event : Exit → NetEvent
net_event e = record {
  timestamp = e.stamp;
  op = e.op;
  detail = extract_net_detail (args_section e);
  result = e.ret;
}

abbrev proc_event : Exit → ProcEvent
proc_event e = record {
  timestamp = e.stamp;
  op = e.op;
  args = extract_exec_args (args_section e);
  result = e.ret;
}

-- The items that pass a test, each as its event, in their order.
unfoldable pub pick {ℓ κ} : {A : Type ℓ} {B : Type κ} → (A → Bool) → (A → B) → List A → List B
pick p f [] = []
pick p f (a ∷ as') = if p a then f a ∷ pick p f as' else pick p f as'

-- The start of the handler: the time of the first call that runs it.
abbrev pub starts_handler : Exit → Bool
starts_handler e =
    contains_str (body e) (codes "execve") && contains_str (body e) (codes "import handler")

unfoldable pub start_of : List Exit → Bytes
start_of [] = []
start_of (e ∷ es) = if starts_handler e then e.stamp else start_of es

abbrev is_nonempty : Bytes → Bool
is_nonempty [] = false
is_nonempty (c ∷ s) = true

abbrev pub counts : Bytes → Exit → Bool
counts start e = not (is_nonempty start && timestamp_before e.stamp start)

abbrev pub is_file_call : Bytes → Exit → Bool
is_file_call start e =
    counts start e
    && (is_one_of e.op fs_ops && not (is_noisy_fs_path (extract_path (args_section e))))

abbrev pub is_net_call : Bytes → Exit → Bool
is_net_call start e = counts start e && is_one_of e.op net_ops

abbrev pub is_proc_call : Bytes → Exit → Bool
is_proc_call start e = counts start e && is_one_of e.op proc_ops

abbrev pub report_of : Bytes → List Exit → BehaviorReport
report_of start es = record {
  fs_access = pick (is_file_call start) fs_event es;
  net_events = pick (is_net_call start) net_event es;
  proc_events = pick (is_proc_call start) proc_event es;
}

abbrev add_report : BehaviorReport → BehaviorReport → BehaviorReport
add_report r q = record {
  fs_access = r.fs_access ++ q.fs_access;
  net_events = r.net_events ++ q.net_events;
  proc_events = r.proc_events ++ q.proc_events;
}

all_pass : (Bytes → Bool) → List Bytes → Bool
all_pass q [] = true
all_pass q (t ∷ ts) = q t && all_pass q ts

abbrev no_file_call : Bytes → Bool
no_file_call s = not (is_one_of s fs_ops)

abbrev no_other_call : Bytes → Bool
no_other_call s = not (is_one_of s fs_ops) && not (is_one_of s net_ops)

-- The text of a trace: one line for each returned call.
abbrev pub render_all : List Exit → Bytes
render_all [] = []
render_all (e ∷ es) = render e ++ 10 ∷ render_all es

extract_body-hidden :
    (shown hidden : Bytes)
    → last_bracket hidden ≡ none
    → contains_str hidden (codes " X ") ≡ false
    → extract_body (shown ++ (codes "] " ++ hidden)) ≡ []
unfolding extract_body contains_str
extract_body-hidden shown hidden h k =
    rw (last_bracket-append shown hidden h, drop-add 2 shown (codes "] " ++ hidden)) (ground arith)

-- A line in which a "] " stands behind the name of the call, with no " X " behind it, is not
-- reported.
pub parse_line_hidden :
    (start : Bytes) (r : BehaviorReport) (shown hidden : Bytes)
    → last_bracket hidden ≡ none
    → contains_str hidden (codes " X ") ≡ false
    → parse_line start r (shown ++ (codes "] " ++ hidden)) ≡ r
unfolding parse_line
parse_line_hidden start r shown hidden h k =
    rw (extract_body-hidden shown hidden h k) (ground arith)
