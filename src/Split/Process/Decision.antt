-- ===== src/Split/Process/Decision.antt =====
-- When an execution is held up.
use mathlib.Core.List.{Memᴰ}
use varmlen_cli_linux.Common.{
  ℕ, ◌≡◌, ◌≢◌, ◌↔◌, refl, sym, ap, subst, ◌∙◌, ◌⊎◌, inl, inr, Bool, true, false, not, ◌&&◌, ◌||◌,
  List, [], ◌∷◌, map, arith,
}
use varmlen_cli_linux.Common.Tests.{◌==◌, if◌then◌else◌, Bool-cases}
use varmlen_cli_linux.Common.Lists.{is_empty, any}
use varmlen_cli_linux.Common.Text.{Text, text_eq_iff, ascii_lower, eq_ignore_ascii_case}
use varmlen_cli_linux.Split.Process.{
  AppSelector, exact_path, process_name, ProcessSnapshot, starts_at_root, components, starts_in_dot,
  texts_eq, same_bool, path_eq, file_name, argument_is_named, is_windows_image, command_words,
  is_named, matches, matches_target, PermissionDecision, allow, move_and_allow, deny, decide,
  permission_decision,
}

-- Two paths with the same root or none, the same `.` at the start or none, and the same components.
abbrev pub IsSamePath : Text → Text → Type 0
IsSamePath p q =
    (starts_at_root p ≡ starts_at_root q)
    × (starts_in_dot p ≡ starts_in_dot q)
    × (components p ≡ components q)

-- The same letters, of either case in ASCII.
abbrev pub IsSameName : Text → Text → Type 0
IsSameName s t = map ascii_lower s ≡ map ascii_lower t

-- A rule means a program that is executed, or the process that executes it: by the path of either;
-- or by the name of the program's file, of the process, of its executable's file, of its first
-- argument, or, for the name of a Windows image, of a word of any argument.
abbrev pub Means : Text → ProcessSnapshot → AppSelector → Type 0
Means target process (exact_path path) = IsSamePath path target ⊎ IsSamePath process.executable path
Means target process (process_name name) =
    ((file_name target ≢ []) × IsSameName (file_name target) name)
    ⊎ (IsSameName process.comm name
        ⊎ (IsSameName (file_name process.executable) name
            ⊎ ((argument_is_named process.argument_zero name ≡ true)
                ⊎ ((is_windows_image name ≡ true)
                    × ((word : Text) × Memᴰ word (command_words process.arguments)
                        × (argument_is_named word name ≡ true))))))

same_bool_iff : (a b : Bool) → (same_bool a b ≡ true) ↔ (a ≡ b)
same_bool_iff true true = ground arith
same_bool_iff true false = ground arith
same_bool_iff false true = ground arith
same_bool_iff false false = ground arith

texts_eq_sound : (ss ts : List Text) → texts_eq ss ts ≡ true → ss ≡ ts
unfolding texts_eq
texts_eq_sound [] [] h = refl
texts_eq_sound [] (t ∷ ts) h = cc
texts_eq_sound (s ∷ ss) [] h = cc
texts_eq_sound (s ∷ ss) (t ∷ ts) h =
    let first = (text_eq_iff s t).0 (ground arith) in
    let rest = texts_eq_sound ss ts (ground arith) in
    ap (λ u. u ∷ ss) first ∙ ap (λ us. t ∷ us) rest

texts_eq_refl : (ss : List Text) → texts_eq ss ss ≡ true
unfolding texts_eq
texts_eq_refl [] = refl
texts_eq_refl (s ∷ ss) = ground (arith, (text_eq_iff s s).1 refl, texts_eq_refl ss)

path_eq_iff : (p q : Text) → (path_eq p q ≡ true) ↔ IsSamePath p q
unfolding path_eq
path_eq_iff p q = (
  λ h. (
    (same_bool_iff (starts_at_root p) (starts_at_root q)).0 (ground arith),
    (same_bool_iff (starts_in_dot p) (starts_in_dot q)).0 (ground arith),
    texts_eq_sound (components p) (components q) (ground arith),
  ),
  λ (r, d, c).
      let root = (same_bool_iff (starts_at_root p) (starts_at_root q)).1 r in
      let dot = (same_bool_iff (starts_in_dot p) (starts_in_dot q)).1 d in
      let parts : texts_eq (components p) (components q) ≡ true =
        subst (λ ps. texts_eq (components p) ps ≡ true) c (texts_eq_refl (components p)) in
      rw (root, dot, parts) refl,
)

eq_ignore_ascii_case_iff : (s t : Text) → (eq_ignore_ascii_case s t ≡ true) ↔ IsSameName s t
unfolding eq_ignore_ascii_case
eq_ignore_ascii_case_iff s t = text_eq_iff (map ascii_lower s) (map ascii_lower t)

Memᴰ-any :
    {A : Type 0} (p : A → Bool) (xs : List A) (x : A) → Memᴰ x xs → p x ≡ true → any p xs ≡ true
Memᴰ-any p [] x m t = elim m [ ]
Memᴰ-any p (y ∷ xs) x (Memᴰ.head e) t = let here : p y ≡ true = ap p (sym e) ∙ t in ground arith
Memᴰ-any p (y ∷ xs) x (Memᴰ.tail m) t = ground (arith, Memᴰ-any p xs x m t)

any-Memᴰ :
    {A : Type 0} (p : A → Bool) (xs : List A) → any p xs ≡ true → (x : A) × Memᴰ x xs × (p x ≡ true)
any-Memᴰ p [] h = cc
any-Memᴰ p (x ∷ xs) h = elim (Bool-cases (p x)) [
  | inl t ↦ (x, Memᴰ.head refl, t)
  | inr f ↦ let (y, m, t) = any-Memᴰ p xs (ground arith) in (y, Memᴰ.tail m, t)
]

or_iff : {P Q : Type 0} (a b : Bool) → (a ≡ true) ↔ P → (b ≡ true) ↔ Q → ((a || b) ≡ true) ↔ (P ⊎ Q)
or_iff true b h k = (λ t. inl (h.0 refl), λ pq. refl)
or_iff false b h k =
    (λ t. inr (k.0 t), λ pq. elim pq [ inl p ↦ absurd (false_not_true (h.1 p)) | inr q ↦ k.1 q ])
  where
    false_not_true : ¬ (false ≡ true)
    false_not_true e = cc

and_iff :
    {P Q : Type 0} (a b : Bool) → (a ≡ true) ↔ P → (b ≡ true) ↔ Q → ((a && b) ≡ true) ↔ (P × Q)
and_iff a b h k = (
  λ t. (h.0 (ground arith), k.0 (ground arith)),
  λ (p, q). let x = h.1 p in let y = k.1 q in rw (x, y) refl,
)

not_empty_iff : (s : Text) → (not (is_empty s) ≡ true) ↔ (s ≢ [])
not_empty_iff [] = (λ h. cc, λ n. absurd (n refl))
not_empty_iff (c ∷ s) = (λ h. λ e. cc, λ n. refl)

-- The two tests of a rule, on the program and on the process, together decide whether it means them.
matches_iff :
    (target : Text) (process : ProcessSnapshot) (selector : AppSelector)
    → ((matches_target selector target || matches selector process) ≡ true)
      ↔ Means target process selector
unfolding matches_target matches is_named
matches_iff target process (exact_path path) =
    or_iff _ _ (path_eq_iff path target) (path_eq_iff process.executable path)
matches_iff target process (process_name name) =
    or_iff _ _
      (and_iff _ _ (not_empty_iff (file_name target))
        (eq_ignore_ascii_case_iff (file_name target) name))
      (named_iff _ _ _ _ (eq_ignore_ascii_case_iff process.comm name)
        (eq_ignore_ascii_case_iff (file_name process.executable) name) (λ t. t, λ t. t)
        (and_iff _ _ (λ t. t, λ t. t)
          (
            any-Memᴰ (λ word. argument_is_named word name) (command_words process.arguments),
            λ (word, m, t).
                Memᴰ-any (λ word. argument_is_named word name) (command_words process.arguments)
                  word m t,
          )))
  where
    named_iff :
        {P Q R U : Type 0} (a b c d : Bool)
        → (a ≡ true) ↔ P
        → (b ≡ true) ↔ Q
        → (c ≡ true) ↔ R
        → (d ≡ true) ↔ U
        → (((a || b || c) || d) ≡ true) ↔ (P ⊎ (Q ⊎ (R ⊎ U)))
    named_iff true b c d h k l m = (λ t. inl (h.0 refl), λ _. refl)
    named_iff false b c d h k l m =
        let rest = or_iff b (c || d) k (or_iff c d l m) in
        (
          λ t. inr (rest.0 (ground arith)),
          λ pq. elim pq [
            | inl p ↦ let no : false ≡ true = h.1 p in absurd (cc)
            | inr q ↦ let yes = rest.1 q in ground arith
          ],
        )

-- Why an execution is of interest to the split.
abbrev pub Concerns : ℕ → ℕ → Text → ProcessSnapshot → List AppSelector → Type 0
Concerns process_uid owner_uid target process selectors =
    (process_uid ≡ owner_uid)
    × ((selector : AppSelector) × Memᴰ selector selectors × Means target process selector)

meant_iff :
    (process_uid owner_uid : ℕ) (target : Text) (process : ProcessSnapshot)
    (selectors : List AppSelector)
    → ((process_uid ≡ owner_uid)
        × (any (λ s. matches_target s target || matches s process) selectors ≡ true))
      ↔ Concerns process_uid owner_uid target process selectors
meant_iff process_uid owner_uid target process selectors =
    let test : AppSelector → Bool = λ s. matches_target s target || matches s process in
    (
      λ (own, h).
          let (s, m, t) = any-Memᴰ test selectors h in
          (own, (s, m, (matches_iff target process s).0 t)),
      λ (own, (s, m, t)). (own, Memᴰ-any test selectors s m ((matches_iff target process s).1 t)),
    )

-- The decision on whether a rule means the process.
chosen : ℕ → ℕ → Bool → Bool → PermissionDecision
chosen process_uid owner_uid meant moved =
    if not (process_uid == owner_uid) || not meant then allow else decide moved

chosen_iff :
    (process_uid owner_uid : ℕ) (meant moved : Bool)
    → let decision = chosen process_uid owner_uid meant moved in
      ((decision ≡ deny) ↔ (((process_uid ≡ owner_uid) × (meant ≡ true)) × (moved ≡ false)))
      × ((decision ≡ move_and_allow)
          ↔ (((process_uid ≡ owner_uid) × (meant ≡ true)) × (moved ≡ true)))
unfolding chosen
chosen_iff process_uid owner_uid true true = ground arith
chosen_iff process_uid owner_uid true false = ground arith
chosen_iff process_uid owner_uid false true = ground arith
chosen_iff process_uid owner_uid false false = ground arith

-- An execution is denied exactly where the process is one of the owner's, some rule means it or the
-- program that it executes, and it could not be moved; and it is moved exactly where it is one of
-- these and could be. All others are allowed. A rule means a path by its components, and a name by
-- its letters of either case.
pub permission_decision_iff :
    (process_uid owner_uid : ℕ) (target : Text) (process : ProcessSnapshot)
    (selectors : List AppSelector) (moved : Bool)
    → let decision = permission_decision process_uid owner_uid target process selectors moved in
      let concerns = Concerns process_uid owner_uid target process selectors in
      ((decision ≡ deny) ↔ (concerns × (moved ≡ false)))
      × ((decision ≡ move_and_allow) ↔ (concerns × (moved ≡ true)))
unfolding permission_decision chosen
permission_decision_iff process_uid owner_uid target process selectors moved =
    let meant = any (λ s. matches_target s target || matches s process) selectors in
    let (denied, moves) = chosen_iff process_uid owner_uid meant moved in
    let (there, back) = meant_iff process_uid owner_uid target process selectors in
    (
      (λ d. let (c, f) = denied.0 d in (there c, f), λ (c, f). denied.1 (back c, f)),
      (λ d. let (c, t) = moves.0 d in (there c, t), λ (c, t). moves.1 (back c, t)),
    )
