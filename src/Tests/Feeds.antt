-- ===== src/Tests/Feeds.antt =====
-- The errors of a reservation with two activities, and Shells of which one has dependencies.
use cloudshell_shell_automat.Base.{ℕ, ◌≡◌, refl, true, false, none, some, List, [], ◌∷◌}
use cloudshell_shell_automat.Errors.{Exc}
use cloudshell_shell_automat.Exec.{ok, err}
use cloudshell_shell_automat.Configs.{CloudShellConfig, ShellConfig}
use cloudshell_shell_automat.Activities.{
  Request, Http, log_in, read_activities, get_reservation_errors, get_activities_url,
}
use cloudshell_shell_automat.Activities.Feed.{asked, Replies, get_reservation_errors-Replies}
use cloudshell_shell_automat.Dependencies.{ZipFormat}
use cloudshell_shell_automat.DebugLevel.Choosing.{
  Setting, set_debug_log_level, set_debug_log_level-raises,
}
use cloudshell_shell_automat.Smb.{SmbServer}
use cloudshell_shell_automat.Tests.{server}

abbrev http : Http
http = record {
  content = λ qs q. ok "key";
  accept = λ qs q. ok tt;
  item_ids = λ qs q. ok (7 ∷ 12 ∷ []);
  activity = λ qs q. ok ("failed", "output");
  encrypt = λ key text. ok "hidden";
}

abbrev cloudshell : CloudShellConfig
cloudshell = record {
  host = "cs";
  user = "admin";
  password = "admin";
  os_user = "";
  os_password = "";
  domain = "Global";
}

feed_example :
    let feed = Request.post_filter (get_activities_url cloudshell "r1") 0 true in
    let before = (log_in http cloudshell []).1 in
    (ids : List ℕ) × ((log_in http cloudshell []).0 ≡ ok tt)
    × (http.item_ids before feed ≡ ok ids)
    × Replies http cloudshell ids (("failed", "output") ∷ ("failed", "output") ∷ []) (feed ∷ before)
    × ((get_reservation_errors http cloudshell "r1" []).1
        ≡ asked http cloudshell ids (feed ∷ before))
unfolding get_reservation_errors log_in read_activities
feed_example =
    get_reservation_errors-Replies http cloudshell "r1" []
      (("failed", "output") ∷ ("failed", "output") ∷ []) refl

-- A format in which nothing is an archive.
abbrev no_format : ZipFormat
no_format = record { zip = λ entries. ""; unzip = λ bytes. none }

abbrev plain_shell : ShellConfig
plain_shell = record {
  name = "shell";
  path = "shell.zip";
  dependencies_path = none;
  extra_standards_paths = [];
  tests_conf = record { expected_failures = []; run_tests = true; original_run_tests = none };
}

abbrev two_shells : List ShellConfig
two_shells = record plain_shell { dependencies_path = some "deps.zip" } ∷ plain_shell ∷ []

abbrev setting : Setting
setting = record {
  files = ("deps.zip", "PK") ∷ [];
  asked = record {
    smb = record {
      self = record {
        domain = none;
        username = "";
        password = "";
        server_ip = "";
        server_name = "";
        share = "C$";
        session = false;
      };
      calls = [];
    };
    calls = [];
  };
}

abbrev quiet_share : SmbServer
quiet_share = record {
  accept = λ calls c. ok tt;
  files = λ calls c. ok [];
  bytes = λ calls c. ok "";
}

debug_level_example :
    (e : Exc) × ((set_debug_log_level no_format server quiet_share
        (λ A again m. m)
        two_shells
        []
        setting).0
      ≡ err e)
    × ((set_debug_log_level no_format server quiet_share
          (λ A again m. m)
          two_shells
          []
          setting).1.asked
        ≡ setting.asked)
debug_level_example =
    set_debug_log_level-raises no_format server quiet_share (λ A again m. m) two_shells [] setting
      refl refl
