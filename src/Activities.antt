-- ===== src/Activities.antt =====
-- shell_tests/helpers/cs_http.py: the errors of a reservation, from the feed of its activities. The
-- HTTP client, JSON and the encryption of the packages `requests` and `cryptography` are parameters;
-- a reply whose JSON lacks a field is one that fails. The generator is run to its end.
pub mod Feed
use cloudshell_shell_automat.Base.{String, ℕ, ◌<>◌, Bool, true, false, List, [], ◌∷◌, decimal}
use cloudshell_shell_automat.Errors.{Exc}
use cloudshell_shell_automat.Exec.{Exec, Result, ok, err, pure, ◌>>=◌, ◌>>◌}
use cloudshell_shell_automat.Configs.{CloudShellConfig}

pub data Request : Type 0 where
  get : String → Request
  -- a `post` of user and password, and one of a filter: the first event, and errors only
  post_login : String → String → String → Request
  post_filter : String → ℕ → Bool → Request

-- The requests so far, the latest first.
abbrev pub Requests : Type 0
Requests = List Request

pub record Http : Type 0 where
  -- `resp.content`
  pub content : Requests → Request → Result String
  pub accept : Requests → Request → Result (Unit {0})
  -- `resp.json()["Data"]["Items"]`, by the `Id` of each
  pub item_ids : Requests → Request → Result (List ℕ)
  -- `resp.json()["Data"]`, by its `Text` and `Output`
  pub activity : Requests → Request → Result (String × String)
  -- `load_pem_public_key(key).encrypt(text)` in base 64
  pub encrypt : String → String → Result String

abbrev pub perform : {A : Type 0} → (Requests → Request → Result A) → Request → Exec Requests A
perform reply q qs = (reply qs q, q ∷ qs)

abbrev pub url_of : CloudShellConfig → String
url_of conf = "http://" <> (conf.host <> "/")

abbrev pub workspace_api : CloudShellConfig → String
workspace_api conf = url_of conf <> "api/WorkspaceApi/"

abbrev pub get_activity_url : CloudShellConfig → ℕ → String
get_activity_url conf id = (workspace_api conf <> "GetActivityFeedInfo?eventId=") <> decimal id

abbrev pub get_activities_url : CloudShellConfig → String → String
get_activities_url conf reservation_id =
    workspace_api conf <> ("GetFilteredActivityFeedInfoList?diagramId=" <> reservation_id)

module _ (http : Http) (conf : CloudShellConfig) where
  -- The public key, and the login with the user and the password under it.
  unfoldable pub log_in : Exec Requests (Unit {0})
  log_in = do
    public_key ← perform http.content (Request.get (url_of conf <> "Account/PublicKey"))
    enc_user ← (λ qs. (http.encrypt public_key conf.user, qs))
    enc_pass ← (λ qs. (http.encrypt public_key conf.password, qs))
    perform http.accept (Request.post_login (url_of conf <> "Account/Login") enc_user enc_pass)

  -- The texts of the activities, one request for each.
  unfoldable pub read_activities : List ℕ → Exec Requests (List (String × String))
  read_activities [] = pure []
  read_activities (id ∷ ids) =
      perform http.activity (Request.get (get_activity_url conf id)) >>= λ item.
      read_activities ids >>= λ items. pure (item ∷ items)

  unfoldable pub get_reservation_errors : String → Exec Requests (List (String × String))
  unfolding log_in read_activities
  get_reservation_errors reservation_id =
      log_in
      >> perform http.item_ids (Request.post_filter (get_activities_url conf reservation_id) 0 true)
      >>= read_activities
