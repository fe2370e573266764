-- ===== src/Configs/Hosts.antt =====
-- `HostConfig.netloc` and `HostConfig.path`.
pub mod Parts
use Prim.Native.String.{[], ◌∷◌}
use text.Mathlib.TextLemmas.{nil-append, cons-append}
use cloudshell_shell_automat.Base.{
  String, code, ◌<>◌, ◌≡◌, refl, Bool, true, false, Option, none, some, is_blank, break_first,
  remove_prefix, strip, arith, if◌then◌else◌, ◌=?◌,
}
use cloudshell_shell_automat.Configs.{HostConfig}

-- `host.split("/", 1)[0]`
abbrev before_slash : String → Option (String × String) → String
before_slash host none = host
before_slash host (some (a, b)) = a

unfoldable pub netloc : HostConfig → String
unfolding break_first
netloc c = before_slash c.host (break_first b'/' c.host)

-- `self.host.removeprefix(self.netloc)`, behind a slash if there is anything
abbrev with_slash : String → String
with_slash p = if is_blank p then p else "/" <> p

unfoldable pub path : HostConfig → String
unfolding netloc remove_prefix
path c = with_slash (remove_prefix c.host (netloc c))
