-- ===== src/Recovery/System/Tests.antt =====
-- A kernel on which an earlier Xray still runs, and recovery on it.
use varmlen_cli_linux.Common.{
  ℕ, ◌≡◌, refl, Bool, true, false, Option, none, some, List, [], ◌∷◌, ◌++◌,
}
use varmlen_cli_linux.Common.Lists.{All, get_elem?}
use varmlen_cli_linux.Common.Text.{
  Text, codes, words, text_eq, pieces, split_on, is_whitespace, lines, lines_of, starts_with,
  contains_text,
}
use varmlen_cli_linux.Common.Numbers.{parse_uint, take_digits, to_digit, digits_value, decimal}
use varmlen_cli_linux.Common.Outcome.{ok}
use varmlen_cli_linux.Recovery.{
  ProcessIdentity, xray_process, runtime_file, CleanupReport, cleanup, parse_start_time_ticks,
  parse_field, clean, remove_all, report_of, insert, resource_lt, resource_eq, contains, matches,
  after_last,
}
use varmlen_cli_linux.Protocol.{connected}
use varmlen_cli_linux.Recovery.Cleanup.{Looks, cleanup_lem, parse_start_time_ticks_lem}
use varmlen_cli_linux.Recovery.System.{
  Kernel, inspect, look, look_rules, look_v4, look_v6, look_on, laid, route_resources, helper_marks,
  join_lines, add_tables, with_cgroup, with_interface, printed, read_saved, saved_process, from_pid,
  split_cgroup, is_live, nft_table_exists,
}
use varmlen_cli_linux.Recovery.System.Removal.{
  terminate_process, remove, system_cleanup_backend, stop_live, wait,
}
use varmlen_cli_linux.Recovery.System.Laws.{Gives}
use varmlen_cli_linux.Recovery.System.Recognized.{Recognized, inspect-Recognized}

abbrev fields : Text
fields = codes " S 1 1 1 1 1 1 1 1 1 1 1 1 1 1 1 1 1 1 99"

-- A process that calls itself `a) b`.
abbrev stat : Text
stat = codes "7 (a) b" ++ (b')' ∷ fields)

abbrev xray : ProcessIdentity
xray = record { pid = 7; start_time_ticks = 99; executable = codes "/x" }

-- Whether the process is there, and the pids that were signalled.
abbrev State : Type 0
State = Bool × List ℕ

abbrev stat_of : Bool → Option Text
stat_of true = some stat
stat_of false = none

abbrev kernel : Kernel State
kernel = record {
  read_state = λ path s.
      ok (some (record { version = 1; owner_uid = 1000; phase = connected; xray = some xray }));
  read_stat = λ pid (there, log). stat_of there;
  read_executable = λ pid s. some (codes "/x");
  path_exists = λ path s. false;
  run = λ program arguments s. (some (false, []), s);
  net_helper = codes "/net";
  terminate = λ pid (there, log). (false, pid ∷ log);
  kill = λ pid (there, log). (true, (false, pid ∷ log));
  sleep = λ s. s;
  remove_file = λ path s. (false, s);
  open_directory = λ path s. false;
  detach_socket_mark = λ path s. s;
  read_lines = λ path s. none;
  write_line = λ path line s. (false, s);
  remove_dir = λ path s. (false, s);
}

abbrev running : State
running = (true, [])

abbrev state_path : Text
state_path = codes "/s"

parse_start_time_ticks_lem_example :
    parse_start_time_ticks stat ≡ parse_field (get_elem? (words fields) 19)
parse_start_time_ticks_lem_example = parse_start_time_ticks_lem (codes "7 (a) b") fields refl

inspect-Recognized_example :
    Gives
      (All (λ r. (later : State) → Recognized (remove kernel 1000 state_path r later).0))
      (inspect kernel 1000 state_path running).0
inspect-Recognized_example = inspect-Recognized kernel 1000 state_path running

-- Only the process of pid 7 is signalled.
abbrev OnlyXray : State → Type 0
OnlyXray (there, log) = All (λ pid. pid ≡ 7) log

abbrev left : CleanupReport
left = record { removed = xray_process xray ∷ []; remaining = runtime_file state_path ∷ [] }

left_test : (cleanup (system_cleanup_backend kernel 1000 state_path) running).0 ≡ ok left
unfolding cleanup clean remove_all report_of insert resource_lt resource_eq contains matches
    parse_start_time_ticks after_last system_cleanup_backend inspect look look_rules look_v4 look_v6
    look_on laid route_resources helper_marks join_lines add_tables with_cgroup with_interface
    printed read_saved saved_process from_pid remove terminate_process stop_live wait text_eq words
    pieces split_on is_whitespace lines lines_of starts_with contains_text parse_uint take_digits
    to_digit digits_value decimal split_cgroup is_live nft_table_exists
left_test = refl

cleanup_lem_example : Looks (system_cleanup_backend kernel 1000 state_path) running left
cleanup_lem_example =
    cleanup_lem (system_cleanup_backend kernel 1000 state_path) running left left_test
