-- ===== src/Shellfoundry/Checking.antt =====
-- `check_shellfoundry_templates` of shell_tests/oop_shellfoundry.py as a whole.
use mathlib.Core.Path.{fun_ext, subst}
use cloudshell_shell_automat.Base.{
  String, List, [], ◌≡◌, sym, ap, ◌∙◌, Bool, none, some, ◌∷◌, arith, inl, inr, replace,
}
use cloudshell_shell_automat.Exec.{Exec, Result, Result-cases, ok, err, ◌>>=◌, ◌>>◌, >>=-eq-ok}
use cloudshell_shell_automat.Shellfoundry.{
  Act, Acts, Os, Desk, new, pack, get_path_to_zip, perform, join_path, first_of,
  check_shellfoundry_templates, write_config, run_and_remove,
}

-- How the tests ended, without their verdict.
abbrev pub forget_verdict : Result Bool × Desk → Result (Unit {0}) × Desk
forget_verdict (ok b, s) = (ok tt, s)
forget_verdict (err e, s) = (err e, s)

-- What follows the tests.
abbrev go_on : Exec Desk (Unit {0}) → Result (Unit {0}) × Desk → Result (Unit {0}) × Desk
go_on k (ok u, s) = k s
go_on k (err e, s) = (err e, s)

forgets :
    (m : Exec Desk Bool) (k : Exec Desk (Unit {0})) (s : Desk)
    → (m >>= λ b. k) s ≡ go_on k (forget_verdict (m s))
forgets m k s = elim (Result-cases (m s).0) [
  | inl (b, e) ↦ ground (arith, e)
  | inr (x, e) ↦ ground (arith, e)
]

module _ (os : Os) (tests tests' : String → Exec Desk Bool) where
  alike :
      ((conf : String) (s : Desk) → forget_verdict (tests conf s) ≡ forget_verdict (tests' conf s))
      → (s : Desk) → run_and_remove os tests s ≡ run_and_remove os tests' s
  unfolding run_and_remove
  alike same s =
      let conf : String = "shell-from-template.yaml" in
      let k : Exec Desk (Unit {0}) = perform os.accept (Act.rmtree "shell_created_by_test") in
      forgets (tests conf) k s ∙ ap (go_on k) (same conf s) ∙ sym (forgets (tests' conf) k s)

  -- If two runs of tests end alike but for their verdicts, then so does the check of a template: it
  -- raises and leaves the same, whether the tests were successful or not.
  pub check-verdict :
      ((conf : String) (s : Desk) → forget_verdict (tests conf s) ≡ forget_verdict (tests' conf s))
      → (template_path test_conf : String) (s : Desk)
      → check_shellfoundry_templates os tests template_path test_conf s
        ≡ check_shellfoundry_templates os tests' template_path test_conf s
  unfolding check_shellfoundry_templates
  check-verdict same template_path test_conf s =
      ap (λ (k : Exec Desk (Unit {0})). (write_config os s.dir template_path test_conf >> k) s)
        (fun_ext (alike same))

-- The acts behind the packing, from the search for the archive to the configuration: the first archive
-- that is found stands in the file in place of `$shell_path`.
abbrev pub Wrote : Os → String → String → Acts → Desk → Type 0
Wrote os root_dir test_conf packed s =
    let search = Act.glob (join_path (join_path root_dir "shell_created_by_test") "dist") "*.zip" in
    (path : String) × (paths : List String) × (text : String) × (os.names packed search
      ≡ ok (path ∷ paths))
    × (os.text (search ∷ packed) (Act.read_file test_conf) ≡ ok text)
    × (s.acts
        ≡ Act.write_file "shell-from-template.yaml" (replace text "$shell_path" path)
          ∷ Act.read_file test_conf
          ∷ search
          ∷ packed)

-- What `new` and `pack` leave.
abbrev pub after_pack : Os → String → Desk → Desk
after_pack os template_path s =
    (pack os s.dir "shell_created_by_test"
      (new os "shell_created_by_test" (some template_path) none s).1).1

first_of-ok :
    (found : List String) (path : String)
    → first_of found ≡ ok path
    → (paths : List String) × (found ≡ path ∷ paths)
first_of-ok [] path h = absurd (cc h)
first_of-ok (x ∷ xs) path h = (xs, ground (arith, h))

module _ (os : Os) where
  found-Wrote :
      (root_dir test_conf : String) (s : Desk)
      → ((get_path_to_zip os root_dir "shell_created_by_test" >>= λ path.
            perform os.text (Act.read_file test_conf) >>= λ text.
            perform os.accept
              (Act.write_file "shell-from-template.yaml" (replace text "$shell_path" path)))
          s).0
        ≡ ok tt
      → Wrote os root_dir test_conf s.acts
          ((get_path_to_zip os root_dir "shell_created_by_test" >>= λ path.
              perform os.text (Act.read_file test_conf) >>= λ text.
              perform os.accept
                (Act.write_file "shell-from-template.yaml" (replace text "$shell_path" path)))
            s).1
  unfolding get_path_to_zip
  found-Wrote root_dir test_conf s h =
      let search =
        Act.glob (join_path (join_path root_dir "shell_created_by_test") "dist") "*.zip" in
      elim (Result-cases (os.names s.acts search)) [
        | inr (e, bad) ↦ absurd (ground (arith, bad, h))
        | inl (found, e) ↦ (elim (Result-cases (first_of found)) [
          | inr (x, bad) ↦ absurd (ground (arith, e, bad, h))
          | inl (path, first) ↦
              (elim (Result-cases (os.text (search ∷ s.acts) (Act.read_file test_conf))) [
                | inr (x, bad) ↦ absurd (ground (arith, e, first, bad, h))
                | inl (text, read) ↦
                    let (paths, all) = first_of-ok found path first in
                    (
                      path,
                      paths,
                      text,
                      e ∙ ap (λ xs. ok xs) all,
                      read,
                      ground (arith, e, first, read),
                    )
              ])
        ])
      ]

  -- What `write_config` does, by its parts.
  writes :
      (template_path test_conf : String) (s : Desk)
      → (write_config os s.dir template_path test_conf s).0 ≡ ok tt
      → Wrote os s.dir test_conf
          (after_pack os template_path s).acts
          (write_config os s.dir template_path test_conf s).1
  unfolding write_config
  writes template_path test_conf s h =
      let name : String = "shell_created_by_test" in
      let find : Exec Desk (Unit {0}) = get_path_to_zip os s.dir name >>= λ path.
      perform os.text (Act.read_file test_conf) >>= λ text.
      perform os.accept
        (Act.write_file "shell-from-template.yaml" (replace text "$shell_path" path)) in
      let start = new os name (some template_path) none in
      let (_, _, e, h1) = >>=-eq-ok start (λ _. pack os s.dir name >> find) s h in
      let (_, _, f, h2) = >>=-eq-ok (pack os s.dir name) (λ _. find) (start s).1 h1 in
      subst (λ r. Wrote os s.dir test_conf (after_pack os template_path s).acts r.1) (sym (e ∙ f))
        (found-Wrote s.dir test_conf (after_pack os template_path s) h2)

  module _ (tests : String → Exec Desk Bool) where
    removes :
        (s : Desk)
        → (run_and_remove os tests s).0 ≡ ok tt
        → (b : Bool) × ((tests "shell-from-template.yaml" s).0 ≡ ok b)
          × ((run_and_remove os tests s).1.acts
              ≡ Act.rmtree "shell_created_by_test" ∷ (tests "shell-from-template.yaml" s).1.acts)
    unfolding run_and_remove
    removes s h =
        let (b, e, f, g) =
          >>=-eq-ok (tests "shell-from-template.yaml")
            (λ _. perform os.accept (Act.rmtree "shell_created_by_test")) s h in
        (b, ap (λ r. r.0) e, ap (λ r. r.1.acts) f)

    -- If a check of a template returns, then behind the packing the archives were searched, the
    -- configuration was read, and it was written with the path of the first archive in place of
    -- `$shell_path`; then the tests ended, with some verdict, and the last act removes the folder of
    -- the Shell.
    pub check-removes :
        (template_path test_conf : String) (s : Desk)
        → (check_shellfoundry_templates os tests template_path test_conf s).0 ≡ ok tt
        → (written : Desk) × (b : Bool) × Wrote os s.dir test_conf
            (after_pack os template_path s).acts
            written
          × ((tests "shell-from-template.yaml" written).0 ≡ ok b)
          × ((check_shellfoundry_templates os tests template_path test_conf s).1.acts
              ≡ Act.rmtree "shell_created_by_test"
                ∷ (tests "shell-from-template.yaml" written).1.acts)
    unfolding check_shellfoundry_templates
    check-removes template_path test_conf s h =
        let (u, w, e, l) =
          >>=-eq-ok (write_config os s.dir template_path test_conf) (λ _. run_and_remove os tests) s
            h in
        let t = (write_config os s.dir template_path test_conf s).1 in
        let (b, q, r) = removes t l in
        (t, b, writes template_path test_conf s (ap (λ r. r.0) w), q, ap (λ r. r.1.acts) e ∙ r)
