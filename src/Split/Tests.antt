-- ===== src/Split/Tests.antt =====
-- Rules and processes as they are met, and a split over layers that are counted.
use varmlen_cli_linux.Common.{ℕ, suc, ◌≡◌, ◌↔◌, refl, ap, true, false, List, [], ◌∷◌}
use varmlen_cli_linux.Common.Text.{
  codes, trim, is_whitespace, text_eq, eq_ignore_ascii_case, ascii_lower, pieces, split_on, words,
}
use varmlen_cli_linux.Common.Outcome.{ok}
use varmlen_cli_linux.Split.{SplitPlan, SplitBackend, SplitManager, new, apply, active}
use varmlen_cli_linux.Common.{some}
use varmlen_cli_linux.Common.Text.{Text}
use varmlen_cli_linux.Split.Routing.{PhysicalRoute, parse_default_route}
use varmlen_cli_linux.Split.Routing.Laws.{Names, parse_default_route_iff}
use varmlen_cli_linux.Split.Laws.{LayerLaws, IsApplied, apply-IsApplied}
use varmlen_cli_linux.Split.Process.{
  AppSelector, exact_path, path_eq, components, starts_in_dot, texts_eq, process_name,
  ProcessSnapshot, parse, matches, is_named, is_windows_image, permission_decision, deny,
  move_and_allow, argument_is_named, command_words, file_name,
}
use varmlen_cli_linux.Split.Process.Laws.{IsParsed, parse-IsParsed}
use varmlen_cli_linux.Split.Process.Decision.{Concerns, permission_decision_iff}

-- A game under Wine: its name is in a later argument.
abbrev game : ProcessSnapshot
game = record {
  comm = codes "wine64";
  executable = codes "/usr/bin/wine64";
  argument_zero = codes "wine64";
  arguments = codes "wine64" ∷ codes "Z:\\games\\REPO.exe" ∷ [];
  cgroup = codes "/user";
}

-- The same path, written with a doubled separator and a dot.
same_path : matches (exact_path (codes "/usr//bin/./wine64")) game ≡ true
unfolding matches path_eq components starts_in_dot texts_eq pieces text_eq
same_path = refl

game_is_meant : matches (process_name (codes "repo.exe")) game ≡ true
unfolding matches is_named is_windows_image argument_is_named command_words file_name pieces
    split_on words is_whitespace eq_ignore_ascii_case ascii_lower text_eq
game_is_meant = refl

other_game_is_not : matches (process_name (codes "EPO.exe")) game ≡ false
unfolding matches is_named is_windows_image argument_is_named command_words file_name pieces
    split_on words is_whitespace eq_ignore_ascii_case ascii_lower text_eq
other_game_is_not = refl

parse-IsParsed_example : IsParsed (trim (codes " a/b ")) (parse (codes " a/b "))
parse-IsParsed_example = parse-IsParsed (codes " a/b ")

firefox_is_no_image : is_windows_image (codes "firefox") ≡ false
unfolding is_windows_image pieces split_on eq_ignore_ascii_case ascii_lower text_eq
firefox_is_no_image = refl

abbrev rules : List AppSelector
rules = process_name (codes "wine64") ∷ []

permission_decision_iff_example :
    let decision = permission_decision 1000 1000 (codes "/bin/sh") game rules false in
    let concerns = Concerns 1000 1000 (codes "/bin/sh") game rules in
    ((decision ≡ deny) ↔ (concerns × (false ≡ false)))
    × ((decision ≡ move_and_allow) ↔ (concerns × (false ≡ true)))
permission_decision_iff_example =
    permission_decision_iff 1000 1000 (codes "/bin/sh") game rules false

-- Layers that are counted as they come up.
abbrev counted : SplitBackend ℕ
counted = record {
  create_cgroup = λ uid n. (ok tt, 1);
  attach_socket_mark_bpf = λ n. (ok tt, suc n);
  install_route_rules = λ n. (ok tt, suc n);
  start_permission_watcher = λ plan n. (ok tt, suc n);
  reconcile_existing = λ plan n. (ok tt, suc n);
  update_plan = λ plan n. (ok tt, n);
  refresh_route_rules = λ n. (ok tt, n);
  rollback = λ n. (ok tt, 0);
}

abbrev counted_laws : LayerLaws counted (λ k n. n ≡ k)
counted_laws = record {
  creates = λ uid b e. refl;
  attaches = λ b up e. ap suc up;
  routes = λ b up e. ap suc up;
  watches = λ plan b up e. ap suc up;
  reconciles = λ plan b up e. ap suc up;
}

abbrev plan : SplitPlan
plan = record { uid = 1000; applications = codes "firefox" ∷ [] }

apply-IsApplied_example : IsApplied counted (λ k n. n ≡ k) counted_laws (apply counted plan (new 0))
apply-IsApplied_example = apply-IsApplied counted (λ k n. n ≡ k) counted_laws plan (new 0)

abbrev live : SplitManager ℕ
live = record { backend = 5; status = active }

abbrev lan_line : Text
lan_line = codes "default via 10.0.0.1 dev eth0 proto dhcp"

abbrev lan : PhysicalRoute
lan = record { interface = codes "eth0"; gateway = some (codes "10.0.0.1") }

parse_default_route_iff_example :
    (parse_default_route lan_line ≡ some lan) ↔ Names (words lan_line) lan
parse_default_route_iff_example = parse_default_route_iff lan_line lan
