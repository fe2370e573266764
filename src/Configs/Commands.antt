-- ===== src/Configs/Commands.antt =====
-- `ResourceConfig._parse_commands`: setup and teardown commands.
use cloudshell_shell_automat.Base.{String, Option, none, some, [], ◌∷◌, ◌==◌, if◌then◌else◌}
use cloudshell_shell_automat.Base.Dict.{Dict}
use cloudshell_shell_automat.Errors.{value_error}
use cloudshell_shell_automat.Exec.{Result, ok, err}
use cloudshell_shell_automat.Configs.{ResourceCommand, ResourceCommandMode, enable, config}

-- An entry of the YAML list: a text, or a mapping.
pub data RawCommand : Type 0 where
  plain : String → RawCommand
  mapping : Dict String → RawCommand

-- `ResourceCommandMode(mode)`, which pydantic calls on the parsed entry.
unfoldable pub mode_of : String → Option ResourceCommandMode
mode_of s = if s == "ENABLE" then some enable else if s == "CONFIG" then some config else none

abbrev with_mode : String → Option ResourceCommandMode → Result ResourceCommand
with_mode command none = err (value_error "value is not a valid enumeration member")
with_mode command (some m) = ok (record { command = command; mode = m })

unfoldable pub parse_command : RawCommand → Result ResourceCommand
unfolding mode_of
parse_command (plain v) = with_mode v (mode_of "ENABLE")
parse_command (mapping ((mode, command) ∷ [])) = with_mode command (mode_of mode)
parse_command (mapping _) = err (value_error "Expect CONFIG: command or ENABLE: command")
