-- ===== src/Activities/Feed.antt =====
-- What the errors of a reservation are, by the requests.
use cloudshell_shell_automat.Base.{String, ℕ, ◌≡◌, refl, ap, ◌∙◌, true, List, [], ◌∷◌, arith}
use mathlib.Core.Path.{subst}
use cloudshell_shell_automat.Exec.{ok, pure, ◌>>=◌, ◌>>◌, >>=-eq-ok}
use cloudshell_shell_automat.Configs.{CloudShellConfig}
use cloudshell_shell_automat.Activities.{
  Request, Requests, Http, perform, get_activity_url, get_activities_url, log_in, read_activities,
  get_reservation_errors,
}

module _ (http : Http) (conf : CloudShellConfig) where
  -- The requests for these activities, onto those before.
  abbrev pub asked : List ℕ → Requests → Requests
  asked [] qs = qs
  asked (id ∷ ids) qs = asked ids (Request.get (get_activity_url conf id) ∷ qs)

  -- The items are the replies to the requests for these activities, in their order.
  abbrev pub Replies : List ℕ → List (String × String) → Requests → Type 0
  Replies [] [] qs = Unit
  Replies [] (item ∷ items) qs = ⊥
  Replies (id ∷ ids) [] qs = ⊥
  Replies (id ∷ ids) (item ∷ items) qs =
      (http.activity qs (Request.get (get_activity_url conf id)) ≡ ok item)
      × Replies ids items (Request.get (get_activity_url conf id) ∷ qs)

  read_activities-Replies :
      (ids : List ℕ) (items : List (String × String)) (qs : Requests)
      → (read_activities http conf ids qs).0 ≡ ok items
      → Replies ids items qs × ((read_activities http conf ids qs).1 ≡ asked ids qs)
  unfolding read_activities
  read_activities-Replies [] [] qs h = (tt, refl)
  read_activities-Replies [] (item ∷ items) qs h = absurd (ground (arith, h))
  read_activities-Replies (id ∷ ids) items qs h =
      let ask = perform http.activity (Request.get (get_activity_url conf id)) in
      let rest = read_activities http conf ids in
      let (item, replied, e, h1) =
        >>=-eq-ok ask (λ item. rest >>= λ items. pure (item ∷ items)) qs h in
      let qs' = Request.get (get_activity_url conf id) ∷ qs in
      let (others, read, f, h2) = >>=-eq-ok rest (λ items. pure (item ∷ items)) qs' h1 in
      let (replies, made) = read_activities-Replies ids others qs' (ap (λ r. r.0) read) in
      let whole : item ∷ others ≡ items = ground (arith, h2) in
      (
        subst (λ xs. Replies (id ∷ ids) xs qs) whole (ap (λ r. r.0) replied, replies),
        ap (λ r. r.1) e ∙ ap (λ r. r.1) f ∙ made,
      )

  -- If the errors of a reservation are returned, then the feed was asked, behind the login and once, for
  -- the errors of this reservation. The result holds the replies to one request for each activity of
  -- the feed, in the order of the feed, and these are the last requests.
  pub get_reservation_errors-Replies :
      (reservation_id : String) (qs : Requests) (items : List (String × String))
      → (get_reservation_errors http conf reservation_id qs).0 ≡ ok items
      → let feed = Request.post_filter (get_activities_url conf reservation_id) 0 true in
        let before = (log_in http conf qs).1 in
        (ids : List ℕ) × ((log_in http conf qs).0 ≡ ok tt)
        × (http.item_ids before feed ≡ ok ids)
        × Replies ids items (feed ∷ before)
        × ((get_reservation_errors http conf reservation_id qs).1 ≡ asked ids (feed ∷ before))
  unfolding get_reservation_errors
  get_reservation_errors-Replies reservation_id qs items h =
      let feed = Request.post_filter (get_activities_url conf reservation_id) 0 true in
      let ask = perform http.item_ids feed in
      let (ids, e, f, h1) = >>=-eq-ok (log_in http conf >> ask) (read_activities http conf) qs h in
      let (u, e2, f2, h2) = >>=-eq-ok (log_in http conf) (λ _. ask) qs (ap (λ r. r.0) e) in
      let before = (log_in http conf qs).1 in
      let there : ((log_in http conf >> ask) qs).1 ≡ feed ∷ before = ap (λ r. r.1) f2 in
      let (replies, made) =
        read_activities-Replies ids items (feed ∷ before)
          (subst (λ t. (read_activities http conf ids t).0 ≡ ok items) there h1) in
      (
        ids,
        ap (λ r. r.0) e2,
        h2,
        replies,
        ap (λ r. r.1) f ∙ ap (λ t. (read_activities http conf ids t).1) there ∙ made,
      )
