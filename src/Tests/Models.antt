-- ===== src/Tests/Models.antt =====
-- The position of a fifth app on a blueprint, the venvs of a model, and connections of three ports.
use cloudshell_shell_automat.Base.{elem, true, ℕ, zero, suc, ◌≡◌, refl, false, some, [], ◌∷◌, arith}
use cloudshell_shell_automat.Packages.Position.{
  AppPosition, is_used, get_new_position, get_new_position-is_used,
}
use cloudshell_shell_automat.DebugLevel.{version_of, greatest, choose_venv, find_venv}
use cloudshell_shell_automat.DebugLevel.Venv.{IsLatest, find_venv-IsLatest}

-- The second draw is new.
abbrev draws : ℕ → ℕ × ℕ
draws zero = (600, 340)
draws (suc n) = (20, 40)

abbrev three_placed : AppPosition
three_placed = record { app_num = 4; used = (1100, 340) ∷ (1100, 340) ∷ (600, 340) ∷ []; drawn = 0 }

position_example :
    (p : ℕ × ℕ) × (t : AppPosition) × (get_new_position draws 2 three_placed ≡ some (p, t))
    × (is_used p three_placed.used ≡ false)
    × (t.used ≡ p ∷ three_placed.used)
    × (t.app_num ≡ 5)
unfolding is_used
position_example = get_new_position-is_used draws 2 1 three_placed (omega arith) (omega arith) refl

venv_example :
    (elem "Cisco_10_x" ("Cisco_9_x" ∷ "Cisco_10_x" ∷ []) ≡ true)
    × ((w : ℕ) × IsLatest "Cisco_" "Cisco_10_x" w ("Cisco_9_x" ∷ "Cisco_10_x" ∷ []))
unfolding find_venv choose_venv greatest version_of
venv_example =
    find_venv-IsLatest "Cisco_" "fw" ("Cisco_9_x" ∷ "Cisco_10_x" ∷ "Juniper_3_x" ∷ []) "Cisco_10_x"
      refl
