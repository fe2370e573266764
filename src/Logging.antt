-- ===== src/Logging.antt =====
-- shell_tests/helpers/logger.py and shell_tests/helpers/threads_helper.py. Of the package `logging` of
-- the standard library: a record reaches a handler if neither the logger's nor the handler's level is
-- above its own; the logger's parents have no handlers.
use cloudshell_shell_automat.Base.{
  String, ◌<>◌, ℕ, ◌≡◌, refl, ap, ◌∙◌, true, false, Option, none, some, List, [], ◌∷◌, break_last,
  leb, arith,
}
use text.Mathlib.TextLemmas.{nil-append, cons-append, append-nil}

pub data Level : Type 0 where
  debug info warning error : Level

unfoldable pub level_number : Level → ℕ
level_number debug = 10
level_number info = 20
level_number warning = 30
level_number error = 40

pub data Target : Type 0 where
  -- a file, which is written anew, and the standard error
  file : String → Target
  stream : Target

pub record Handler : Type 0 where
  pub target : Target
  pub level : Level
  pub formatter : String

pub record Logger : Type 0 where
  pub name : String
  pub level : Level
  pub handlers : List Handler

abbrev line_format : String
line_format = "%(asctime)s - %(threadName)s - %(levelname)s - %(message)s"

unfoldable pub get_logger : Logger
get_logger = record {
  name = "Automation Tests";
  level = debug;
  handlers =
      record { target = stream; level = info; formatter = line_format }
      ∷ record { target = file "shell-tests.log"; level = debug; formatter = line_format }
      ∷ [];
}

targets_of : ℕ → List Handler → List Target
targets_of n [] = []
targets_of n (h ∷ hs) =
    let rest = targets_of n hs in
    elim (leb (level_number h.level) n) [ true ↦ h.target ∷ rest | false ↦ rest ]

-- Where a record of a level is written.
unfoldable pub written_to : Logger → Level → List Target
unfolding targets_of level_number
written_to logger level = elim (leb (level_number logger.level) (level_number level)) [
  | true ↦ targets_of (level_number level) logger.handlers
  | false ↦ []
]

-- Every record goes to the file, and to the stream all but those for debugging.
pub get_logger-written_to :
    (level : Level)
    → written_to get_logger level ≡ (elim level [
      | debug ↦ file "shell-tests.log" ∷ []
      | _ ↦ stream ∷ file "shell-tests.log" ∷ []
    ])
unfolding written_to get_logger targets_of level_number
get_logger-written_to debug = refl
get_logger-written_to info = refl
get_logger-written_to warning = refl
get_logger-written_to error = refl

-- `name.rsplit("]", 1)[0]`
abbrev before_bracket : String → Option (String × String) → String
before_bracket name none = name
before_bracket name (some (a, b)) = a

-- `set_thread_name_with_suffix`: the new name of the thread
unfoldable pub set_thread_name_with_suffix : String → String → String
unfolding break_last
set_thread_name_with_suffix name suffix =
    before_bracket name (break_last b']' name) <> ("]-" <> suffix)

break_last-append :
    (s t a b : String)
    → break_last b']' t ≡ some (a, b)
    → break_last b']' (s <> t) ≡ some (s <> a, b)
unfolding break_last
break_last-append String.[] t a b h = rw (nil-append, nil-append) h
break_last-append (String.◌∷◌ c s) t a b h =
    rw (cons-append, cons-append) (ground (arith, break_last-append s t a b h))

dash-append : (s : String) → "-" <> s ≡ String.◌∷◌ "-" s
dash-append s = cons-append "-" "" s ∙ ap (String.◌∷◌ "-") (nil-append s)

bracket-append : (s : String) → "]-" <> s ≡ String.◌∷◌ "]" (String.◌∷◌ "-" s)
bracket-append s = cons-append "]" "-" s ∙ ap (String.◌∷◌ "]") (dash-append s)

break_last-suffix :
    (suffix : String)
    → break_last b']' suffix ≡ none
    → break_last b']' ("]-" <> suffix) ≡ some ("", "-" <> suffix)
unfolding break_last
break_last-suffix suffix h = rw (bracket-append suffix, dash-append suffix) (ground (arith, h))

-- A second suffix replaces the first, if there is no bracket in that.
pub set_thread_name_with_suffix_twice :
    (name a b : String)
    → break_last b']' a ≡ none
    → set_thread_name_with_suffix (set_thread_name_with_suffix name a) b
      ≡ set_thread_name_with_suffix name b
unfolding set_thread_name_with_suffix
set_thread_name_with_suffix_twice name a b h =
    let x = before_bracket name (break_last b']' name) in
    rw (break_last-append x ("]-" <> a) "" ("-" <> a) (break_last-suffix a h), append-nil x) refl
