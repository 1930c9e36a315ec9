-- ===== src/Split/Process.antt =====
-- daemon/src/split/process.rs and the decision of daemon/src/split/watcher.rs: which processes a
-- rule of the split means. A path is the text it was written as, and is compared by its components.
pub mod Laws
pub mod Decision
use varmlen_cli_linux.Common.{
  ℕ, ◌≡◌, Bool, true, false, not, ◌&&◌, ◌||◌, Option, none, some, List, [], ◌∷◌, ◌++◌,
}
use varmlen_cli_linux.Common.Tests.{ltb, leb, ◌==◌, if◌then◌else◌}
use varmlen_cli_linux.Common.Lists.{is_empty, any, keep, length}
use varmlen_cli_linux.Common.Text.{
  Text, codes, len, trim, text_eq, contains_char, eq_ignore_ascii_case, pieces, words,
  contains_text,
}
use varmlen_cli_linux.Common.Outcome.{Result, ok, err}
use varmlen_cli_linux.Split.{SplitError, invalid_application}

pub data AppSelector : Type 0 where
  exact_path process_name : Text → AppSelector

pub record ProcessSnapshot : Type 0 where
  pub comm : Text
  pub executable : Text
  pub argument_zero : Text
  pub arguments : List Text
  pub cgroup : Text

abbrev pub starts_at_root : Text → Bool
starts_at_root [] = false
starts_at_root (c ∷ s) = c == b'/'

-- `parse`, on the text without the space around it.
unfoldable pub parse_trimmed : Text → Result SplitError AppSelector
parse_trimmed value =
    if is_empty value || ltb 4096 (len value) || contains_char value 0
    then err (invalid_application value)
    else if starts_at_root value
    then ok (exact_path value)
    else if contains_char value b'/' || contains_char value 0x5c
    then err (invalid_application value)
    else ok (process_name value)

unfoldable pub parse : Text → Result SplitError AppSelector
unfolding parse_trimmed
parse value = parse_trimmed (trim value)

-- The last of the pieces; there is always one.
abbrev last_of : Text → List Text → Text
last_of piece [] = piece
last_of piece (next ∷ rest) = last_of next rest

abbrev last_piece : List Text → Text
last_piece [] = []
last_piece (piece ∷ rest) = last_of piece rest

unfoldable pub argument_is_named : Text → Text → Bool
argument_is_named argument name =
    eq_ignore_ascii_case (last_piece (pieces (λ c. c == b'/' || c == 0x5c) argument)) name

-- The components of a path, besides the root and a `.` at its start: a repeated separator, one at
-- the end and any other `.` count for nothing.
unfoldable pub components : Text → List Text
components path =
    keep (λ part. not (is_empty part) && not (text_eq part (codes ".")))
      (pieces (λ c. c == b'/') path)

abbrev first_is_dot : List Text → Bool
first_is_dot [] = false
first_is_dot (part ∷ parts) = text_eq part (codes ".")

unfoldable pub starts_in_dot : Text → Bool
starts_in_dot path = first_is_dot (pieces (λ c. c == b'/') path)

unfoldable pub texts_eq : List Text → List Text → Bool
texts_eq [] [] = true
texts_eq [] (t ∷ ts) = false
texts_eq (s ∷ ss) [] = false
texts_eq (s ∷ ss) (t ∷ ts) = text_eq s t && texts_eq ss ts

abbrev pub same_bool : Bool → Bool → Bool
same_bool true b = b
same_bool false b = not b

-- `==` of `Path`.
unfoldable pub path_eq : Text → Text → Bool
unfolding components starts_in_dot texts_eq
path_eq p q =
    same_bool (starts_at_root p) (starts_at_root q)
    && same_bool (starts_in_dot p) (starts_in_dot q)
    && texts_eq (components p) (components q)

-- `file_name` of a path: its last component, unless that is none or `..`.
unfoldable pub file_name : Text → Text
unfolding components
file_name path =
    let last = last_piece (components path) in if text_eq last (codes "..") then [] else last

-- Whether there is a dot, and `exe` follows the last one.
abbrev is_exe : List Text → Bool
is_exe [] = false
is_exe (only ∷ []) = false
is_exe (first ∷ next ∷ rest) = eq_ignore_ascii_case (last_of next rest) (codes "exe")

unfoldable pub is_windows_image : Text → Bool
is_windows_image name = is_exe (pieces (λ c. c == b'.') name)

unfoldable pub is_application_id : Text → Bool
unfolding is_windows_image
is_application_id name =
    not (contains_char name b'-')
    && not (is_windows_image name)
    && leb 3 (length (keep (λ part. not (is_empty part)) (pieces (λ c. c == b'.') name)))

-- An argument as a whole, and each of its words.
unfoldable pub command_words : List Text → List Text
command_words [] = []
command_words (argument ∷ arguments) = (argument ∷ words argument) ++ command_words arguments

unfoldable pub is_named : Text → ProcessSnapshot → Bool
unfolding argument_is_named file_name
is_named name process =
    eq_ignore_ascii_case process.comm name
    || eq_ignore_ascii_case (file_name process.executable) name
    || argument_is_named process.argument_zero name

unfoldable pub matches : AppSelector → ProcessSnapshot → Bool
unfolding path_eq is_named is_windows_image argument_is_named command_words
matches (exact_path path) process = path_eq process.executable path
matches (process_name name) process =
    is_named name process
    || (is_windows_image name
        && any (λ word. argument_is_named word name) (command_words process.arguments))

unfoldable pub cgroup_paths_contain : ProcessSnapshot → Text → Bool
cgroup_paths_contain process id =
    any (λ component. contains_text component id) (pieces (λ c. c == b'/') process.cgroup)

unfoldable pub application_id : AppSelector → Option Text
unfolding is_application_id
application_id (exact_path path) = none
application_id (process_name name) = if is_application_id name then some name else none

unfoldable pub matched_application_id : AppSelector → ProcessSnapshot → Option Text
unfolding is_application_id cgroup_paths_contain
matched_application_id (exact_path path) process = none
matched_application_id (process_name name) process =
    if is_application_id name && cgroup_paths_contain process name then some name else none

unfoldable pub matches_target : AppSelector → Text → Bool
unfolding path_eq file_name
matches_target (exact_path path) target = path_eq path target
matches_target (process_name name) target =
    let file = file_name target in not (is_empty file) && eq_ignore_ascii_case file name

pub data PermissionDecision : Type 0 where
  allow move_and_allow deny : PermissionDecision

abbrev pub decide : Bool → PermissionDecision
decide true = move_and_allow
decide false = deny

unfoldable pub permission_decision :
    ℕ → ℕ → Text → ProcessSnapshot → List AppSelector → Bool → PermissionDecision
unfolding matches matches_target
permission_decision process_uid owner_uid target process selectors move_succeeded =
    if not (process_uid == owner_uid)
      || not
          (any (λ selector. matches_target selector target || matches selector process) selectors)
    then allow
    else decide move_succeeded
