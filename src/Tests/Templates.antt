-- ===== src/Tests/Templates.antt =====
-- A Shell that is made from a template, packed and tested.
use cloudshell_shell_automat.Base.{String, ◌≡◌, refl, Bool, false, some, [], ◌∷◌}
use cloudshell_shell_automat.Base.Words.{words}
use cloudshell_shell_automat.Exec.{Exec, ok, pure}
use cloudshell_shell_automat.Shellfoundry.{
  Act, Os, Desk, new, pack, get_path_to_zip, write_config, create_shell_command, name_of_shell,
  run_command, change_dir, run_and_remove, check_shellfoundry_templates,
}
use cloudshell_shell_automat.Shellfoundry.Commands.{new-arguments}
use cloudshell_shell_automat.Shellfoundry.Checking.{Wrote, after_pack, check-removes}

abbrev os : Os
os = record {
  accept = λ acts a. ok tt;
  text = λ acts a. ok "path: $shell_path";
  names = λ acts a. ok ("/work/shell/dist/shell.zip" ∷ []);
}

abbrev desk : Desk
desk = record { dir = "/work"; acts = [] }

abbrev verdict : Bool → String → Exec Desk Bool
verdict b conf = pure b

new_example :
    (new os "my_shell" (some "tosca/firewall") (some "2.0.1") desk).1.acts
    ≡ Act.read_output
      ∷ Act.popen (
          "shellfoundry" ∷ "new" ∷ "my_shell" ∷ "--template" ∷ "tosca/firewall" ∷ "--version"
          ∷ "2.0.1" ∷ [])
      ∷ []
unfolding words create_shell_command name_of_shell
new_example = new-arguments os "my_shell" "tosca/firewall" "2.0.1" desk refl refl refl refl

check_removes_example :
    (written : Desk) × (b : Bool) × Wrote os "/work" "conf.yaml"
      (after_pack os "local:/t" desk).acts
      written
    × ((verdict false "shell-from-template.yaml" written).0 ≡ ok b)
    × ((check_shellfoundry_templates os (verdict false) "local:/t" "conf.yaml" desk).1.acts
        ≡ Act.rmtree "shell_created_by_test"
          ∷ (verdict false "shell-from-template.yaml" written).1.acts)
unfolding check_shellfoundry_templates write_config run_and_remove new pack get_path_to_zip
    change_dir run_command
check_removes_example = check-removes os (verdict false) "local:/t" "conf.yaml" desk refl
