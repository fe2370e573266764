-- ===== src/Shellfoundry/Commands.antt =====
-- The commands of shell_tests/oop_shellfoundry.py, as the arguments of processes.
use cloudshell_shell_automat.Base.{
  String, ◌<>◌, ◌≡◌, refl, ap, sym, ◌∙◌, true, false, some, List, [], ◌∷◌, ◌++◌, contains,
  starts_with, is_blank, arith, if◌then◌else◌, Bool-cases, inl, inr,
}
use cloudshell_shell_automat.Base.Words.{words, is_word, words-append, words-word}
use cloudshell_shell_automat.Errors.{Exc, other}
use cloudshell_shell_automat.Exec.{Result-cases, ok, err}
use cloudshell_shell_automat.Shellfoundry.{
  Act, Os, Desk, create_shell_command, name_of_shell, run_command, new, pack, get_templates,
  join_path, change_dir,
}
use text.Mathlib.TextLemmas.{append_assoc, nil-append, cons-append}
use mathlib.Core.List as List
use mathlib.Core.Path.{◌≡⟨◌⟩◌, ◌∎}

blank-append : (v : String) → " " <> v ≡ String.◌∷◌ " " v
blank-append v = cons-append " " "" v ∙ ap (String.◌∷◌ " ") (nil-append v)

words-append_word :
    (command w : String)
    → is_word w ≡ true
    → words (command <> (" " <> w)) ≡ words command ++ (w ∷ [])
words-append_word command w h = rw (blank-append w, words-append command w, words-word w h) refl

-- An option and its value, behind a command.
words-option :
    (command option value : String)
    → is_word option ≡ true
    → is_word value ≡ true
    → words (command <> (((" " <> option) <> " ") <> value))
      ≡ words command ++ (option ∷ value ∷ [])
words-option command option value o v =
    words (command <> (((" " <> option) <> " ") <> value))
    ≡⟨ ap (λ u. words (command <> u)) (append_assoc (" " <> option) " " value) ⟩
      words (command <> ((" " <> option) <> (" " <> value)))
    ≡⟨ ap words (sym (append_assoc command (" " <> option) (" " <> value))) ⟩
      words ((command <> (" " <> option)) <> (" " <> value))
    ≡⟨ words-append_word (command <> (" " <> option)) value v ⟩
      words (command <> (" " <> option)) ++ (value ∷ [])
    ≡⟨ ap (λ ws. ws ++ (value ∷ [])) (words-append_word command option o) ⟩
      (words command ++ (option ∷ [])) ++ (value ∷ [])
    ≡⟨ List.append_assoc (words command) (option ∷ []) (value ∷ []) ⟩
      words command ++ (option ∷ value ∷ []) ∎

words-new :
    (name : String)
    → is_word name ≡ true
    → words ("shellfoundry new " <> name) ≡ "shellfoundry" ∷ "new" ∷ name ∷ []
unfolding words
words-new name h =
    ap words (append_assoc "shellfoundry new" " " name)
    ∙ words-append_word "shellfoundry new" name h

blank_word : (s : String) → is_word s ≡ true → is_blank s ≡ false
blank_word String.[] h = ground (arith, h)
blank_word (String.◌∷◌ c s) h = refl

words_template :
    (name template : String)
    → is_word name ≡ true
    → is_word template ≡ true
    → words (("shellfoundry new " <> name) <> (" --template " <> template))
      ≡ "shellfoundry" ∷ "new" ∷ name ∷ "--template" ∷ template ∷ []
unfolding words
words_template name template n t =
    words-option ("shellfoundry new " <> name) "--template" template refl t
    ∙ ap (λ ws. ws ++ ("--template" ∷ template ∷ [])) (words-new name n)

words_version :
    (name template version : String)
    → is_word name ≡ true
    → is_word template ≡ true
    → is_word version ≡ true
    → words (
        (("shellfoundry new " <> name) <> (" --template " <> template))
        <> (" --version " <> version))
      ≡ "shellfoundry" ∷ "new" ∷ name ∷ "--template" ∷ template ∷ "--version" ∷ version ∷ []
unfolding words
words_version name template version n t v =
    words-option (("shellfoundry new " <> name) <> (" --template " <> template)) "--version" version
      refl v
    ∙ ap (λ ws. ws ++ ("--version" ∷ version ∷ [])) (words_template name template n t)

abbrev pub arguments_of_new : String → String → String → List String
arguments_of_new name template version =
    "shellfoundry"
    ∷ "new"
    ∷ name
    ∷ "--template"
    ∷ template
    ∷ (if contains "local" template then [] else ("--version" ∷ version ∷ []))

words_create :
    (name template version : String)
    → is_word name ≡ true
    → is_word template ≡ true
    → is_word version ≡ true
    → words (create_shell_command name (some template) (some version))
      ≡ arguments_of_new name template version
unfolding create_shell_command name_of_shell
words_create name template version n t v = elim (Bool-cases (contains "local" template)) [
  | inl local ↦ rw local (words_template name template n t)
  | inr remote ↦
      rw (remote, blank_word name n, blank_word version v)
        (words_version name template version n t v)
]

abbrev pub answer : String → Act
answer command = if contains "local" command then Act.communicate "\n" else Act.read_output

module _ (os : Os) where
  run_command-acts :
      (command : String) (s : Desk)
      → os.accept s.acts (Act.popen (words command)) ≡ ok tt
      → (run_command os command s).1.acts ≡ answer command ∷ Act.popen (words command) ∷ s.acts
  unfolding run_command
  run_command-acts command s h = ground (arith, h)

  -- If the name, the template and the version are not blank and without white space, and the process
  -- starts, then `new` starts one process, with exactly these arguments after `shellfoundry new`: the
  -- name, `--template` and the template, and `--version` and the version if the template is not a local
  -- one. Then it reads the output, behind a line end if the text `local` is in the command.
  pub new-arguments :
      (name template version : String) (s : Desk)
      → is_word name ≡ true
      → is_word template ≡ true
      → is_word version ≡ true
      → os.accept s.acts (Act.popen (arguments_of_new name template version)) ≡ ok tt
      → (new os name (some template) (some version) s).1.acts
        ≡ answer (create_shell_command name (some template) (some version))
          ∷ Act.popen (arguments_of_new name template version)
          ∷ s.acts
  unfolding new
  new-arguments name template version s n t v h =
      let e = words_create name template version n t v in
      let c = create_shell_command name (some template) (some version) in
      run_command-acts c s (rw e h) ∙ ap (λ ws. answer c ∷ Act.popen ws ∷ s.acts) e

  -- The list of templates is never returned.
  pub get_templates-raises : (s : Desk) → (e : Exc) × ((get_templates os s).0 ≡ err e)
  unfolding get_templates
  get_templates-raises s = elim (Result-cases (run_command os "list --all" s).0) [
    | inl (u, good) ↦ (other "TypeError", ground (arith, good))
    | inr (e, bad) ↦ (e, ground (arith, bad))
  ]

  -- If `pack` returns and the root is absolute, then the working directory is the root; if the folder
  -- was entered and the packing raises, it stays the folder.
  pub pack-dir :
      (root folder : String) (s : Desk)
      → starts_with root "/" ≡ true
      → os.accept s.acts (Act.chdir folder) ≡ ok tt
      → (pack os root folder s).1.dir
        ≡ (elim (pack os root folder s).0 [ ok u ↦ root | err e ↦ join_path s.dir folder ])
  unfolding pack change_dir join_path run_command
  pack-dir root folder s h e = ground (arith, h, e)
