-- ===== src/Lib.antt =====
-- Shell automation tests: a program that makes a CloudShell server ready, installs Shells on it,
-- makes resources and sandboxes, runs test cases against them and reports the results. This
-- library models its core: what it asks of the server, in which order, and what it makes of each
-- reply.
--
-- The parts and the files that model them:
--
--   Errors           shell_tests/errors.py: the exceptions, and those of libraries that are caught
--   Exec             exceptions with state: what was written before a raise stays written
--   Api              the Automation API and REST sessions: a call and its reply. An `Api` answers by
--                    the history of all calls, so it stands for any server; a theorem over all
--                    `Api` holds for each. Hypotheses on it are replies to named calls
--   Naming           shell_tests/helpers/cs_helpers.py: generate_new_resource_name
--   CsHandler        shell_tests/handlers/cs_handler.py: CloudShellHandler, with a child per group
--                    of methods (Session, Reservations, Resources, Commands, Topology, Shells)
--   SandboxHandler   shell_tests/handlers/sandbox_handler.py
--   ResourceHandler  shell_tests/handlers/resource_handler.py: State (fields, creation, name),
--                    Attributes, Autoload, Commands, Service (ServiceHandler), Deployed
--                    (DeploymentResourceHandler), Threads (autoload in several threads)
--   Configs          shell_tests/configs.py: the models, Versions, Commands, Hosts, Tests
--   TestSuite        shell_tests/helpers/tests_helpers.py: Table (the tables), Selection
--   Report           shell_tests/report_result.py
--   ShellHandler     shell_tests/handlers/shell_handler.py and shell_tests/helpers/shell_helpers.py
--   HandlerStorage   shell_tests/helpers/handler_storage.py: the lists of Shells, resources and
--                    sandboxes, Servers (the handlers of other servers), Offline
--                    (the handler of the share for those of Shells)
--   DoHandler        shell_tests/handlers/do_handler.py: Topology (the choice of a topology),
--                    Creator (CSCreator), Apps (NetworkingAppsHandler and DoHandler)
--   RunTests         shell_tests/run_tests_for_sandbox.py and of shell_tests/run_tests.py
--                    _wait_for_futures; Sandboxes (the runs of all
--                    sandboxes), Runner (what follows the tests), Alive
--                    (shell_tests/helpers/check_resource_is_alive.py)
--   Smb              what is asked of a file share: pysmb and the local disk, by the history of calls
--   SmbHandler       shell_tests/handlers/smb_handler.py: SmbHandler, CloudShell
--                    (CloudShellSmbHandler, and shell_tests/helpers/smb_helpers.py)
--   Dependencies     shell_tests/helpers/dependencies_helpers.py
--   DebugLevel       shell_tests/helpers/cs_helpers.py behind the names, set_debug_logs/__main__.py
--   RemoteFiles      shell_tests/handlers: abc_remote_file_handler.py, ftp_handler.py,
--                    scp_handler.py, tftp_handler.py
--   Packages         shell_tests/helpers/package_api: models.py, Position (app_position.py), Package
--                    (package_api.py and shell_tests/helpers/app_helpers.py)
--   TestCases        shell_tests/automation_tests: Base (base.py), SaveRestore, Autoload (with the
--                    custom commands), Connectivity, VmConnections
--   VcenterHandler   shell_tests/handlers/vcenter_handler.py
--   Activities       shell_tests/helpers/cs_http.py: the errors that stand behind an `Api`'s `errors`
--   Downloads        shell_tests/helpers/download_files_helper.py
--   Logging          shell_tests/helpers/logger.py and shell_tests/helpers/threads_helper.py
--   Shellfoundry     shell_tests/oop_shellfoundry.py
--   EntryPoints      the whole runs: AutomatedTestsRunner.run of shell_tests/run_tests.py,
--                    shell_tests/prepare_env.py, Commands (shell_tests/cli.py)
--   Base             lists, texts, dicts and decimal numerals that the parts share
--   Tests            runs on concrete inputs
--
-- A method is a function of the same name. Its first argument is the server, then come the
-- arguments of the method, and it maps the state to a result and the new state: the history of
-- calls, and beside it the handler where the method writes fields. The latest call stands first
-- in a history. The handlers call each other as in the code: a test asks a ResourceHandler, which
-- asks its SandboxHandler, which asks the CloudShellHandler, which asks the server.
--
-- Bounds and fuel. `for _ in range(n)` is recursion on the rounds left. The two `while True`
-- loops, create_resource and rename_resource, run on fuel and raise `no_fuel` when it is used up;
-- one round more than the server has names is enough, which the theorems on them show. The
-- decorators of the package `retrying` are parameters, arbitrary functions of a method; where a
-- theorem needs what they do, a hypothesis states what the documentation of the package says. The
-- recursions of create_dir and download_r_dir are on a bound of the depth, which for create_dir
-- is enough if it is greater than the length of the path; the draws of get_random_position are
-- bounded, and enough if a free position is drawn within the bound. Where create_resource is
-- called without create_new_resources_if_exists, it makes one round.
--
-- Not modelled: what is written to the log and when; threads, so that a lock or an event is a
-- flag and one thread is followed, but in ResourceHandler.Threads, where threads interleave at
-- each operation on what they share, and the futures of a pool run one after another, where a set
-- of them has any order (Base.Shuffle, by the positions that the field `order` of Api gives); the
-- texts of regular expressions and numbers beyond ASCII, and names of more than one line; of
-- `int` only what it makes of digits; YAML, the conversions of pydantic and the decorators of
-- click; failures of the local disk, but for those of a share's copy; the parts of the program
-- that are not listed above, which are the test cases of sandboxes, the tests of traffic
-- generators and the loop over the apps in those of VM connections, which reads a field that is
-- not there.
pub mod Base
pub mod Errors
pub mod Exec
pub mod Api
pub mod Logging
pub mod Naming
pub mod CsHandler
pub mod Configs
pub mod SandboxHandler
pub mod ResourceHandler
pub mod Smb
pub mod SmbHandler
pub mod Shellfoundry
pub mod Dependencies
pub mod RemoteFiles
pub mod TestCases
pub mod Packages
pub mod DebugLevel
pub mod ShellHandler
pub mod HandlerStorage
pub mod DoHandler
pub mod RunTests
pub mod EntryPoints
pub mod VcenterHandler
pub mod Activities
pub mod Downloads
pub mod Report
pub mod TestSuite
mod Tests
