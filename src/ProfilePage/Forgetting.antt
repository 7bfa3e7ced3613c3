-- ===== src/ProfilePage/Forgetting.antt =====
-- What a saved change leaves of the figures.
use multi_rpc.Prelude.{
  All, Bool-cases, ◌==◌, ◌-◌, get_elem?, text_eq, List, ℕ, ◌≡◌, refl, ◌⊎◌, inl, inr, Option, none,
  some, [], ◌∷◌, Text, lit, remove_first, Result, ok, err, bind_from, catch_from, return,
}
use multi_rpc.Platform.{Platform}
use multi_rpc.Dashboard.{Totals}
use multi_rpc.Profile.{
  Profiles, Claims, UserRow, Stats, Reply, profile, welcome, updated, closed, put_profile,
  ProfileChange, admitted, change_user,
}
use multi_rpc.Browser.{Outcome, lost, refused, answered}
use multi_rpc.ProfilePage.{
  Page, Form, ShownUser, Figures, Event, user_changed, fetch_answered, clicked_edit, clicked_cancel,
  typed, clicked_save, save_answered, set_delete_modal, cancelled_delete, typed_confirmation,
  clicked_delete, delete_answered, fetch_user_profile, finish_fetching, cancel, handle_save,
  finish_saving, save_ends, handle_delete_account, finish_deleting, step, run, change_of,
  figures_of,
}

module _ {Included : Type 0} where
  abbrev pub shown : UserRow Included → Option Stats → Option Totals → Option Totals → ShownUser
  shown row stats monthly today = record {
    name = row.name;
    email = row.email;
    image = row.image;
    stats = stats;
    monthly = monthly;
    today = today;
  }

  -- What the page makes of an answer of the route. The body of `GET` spreads `stats` and `usage` over the
  -- row, and those of `POST` and `PUT` are the row alone, so that the page reads them as missing.
  abbrev pub outcome_of : Result (Reply Included) → Outcome ShownUser
  outcome_of (err e) = lost
  outcome_of (ok (profile row stats monthly today)) =
      answered (shown row (some stats) (some monthly) today)
  outcome_of (ok (welcome row)) = answered (shown row none none none)
  outcome_of (ok (updated row)) = answered (shown row none none none)
  outcome_of (ok closed) = lost
  outcome_of (ok (Reply.refused status error)) = refused (some error)

abbrev pub no_figures : Figures
no_figures = record { keys = 0; this_month = 0; this_day = 0; invoices = 0 }

-- the page shows a user without a figure
abbrev pub HasNoFigures : Page → Type 0
HasNoFigures p = (u : ShownUser) × (p.user ≡ some u) × (figures_of u ≡ no_figures)

-- An event that is no answer to a fetch; an answer to a save brings no figure, as those of the route.
abbrev pub IsFigureless : Event → Type 0
IsFigureless (fetch_answered (answered u)) = ⊥
IsFigureless (save_answered i (answered u)) = figures_of u ≡ no_figures
IsFigureless _ = Unit

finish_saving-HasNoFigures :
    (i : ℕ) (o : Outcome ShownUser) (p : Page)
    → IsFigureless (save_answered i o)
    → HasNoFigures p
    → HasNoFigures (finish_saving o p)
unfolding finish_saving
finish_saving-HasNoFigures i lost p s h = h
finish_saving-HasNoFigures i (refused e) p s h = h
finish_saving-HasNoFigures i (answered u) p s h = (u, refl, s)

save_ends-HasNoFigures :
    (i : ℕ) (o : Outcome ShownUser) (p : Page) (found : Option Form)
    → IsFigureless (save_answered i o)
    → HasNoFigures p
    → HasNoFigures (save_ends i o p found)
save_ends-HasNoFigures i o p none s h = h
save_ends-HasNoFigures i o p (some f) s h = finish_saving-HasNoFigures i o _ s h

fetch_ends-HasNoFigures :
    (o : Outcome ShownUser) (p : Page)
    → IsFigureless (fetch_answered o)
    → HasNoFigures p
    → HasNoFigures (finish_fetching o p)
unfolding finish_fetching
fetch_ends-HasNoFigures lost p s h = h
fetch_ends-HasNoFigures (refused e) p s h = h
fetch_ends-HasNoFigures (answered u) p s h = absurd s

finish_deleting-HasNoFigures :
    (o : Outcome (Unit {0})) (p : Page) → HasNoFigures p → HasNoFigures (finish_deleting o p)
unfolding finish_deleting
finish_deleting-HasNoFigures lost p h = h
finish_deleting-HasNoFigures (refused e) p h = h
finish_deleting-HasNoFigures (answered u) p h = h

step-HasNoFigures :
    (e : Event) (p : Page) → IsFigureless e → HasNoFigures p → HasNoFigures (step e p)
unfolding step fetch_user_profile cancel handle_save handle_delete_account
step-HasNoFigures user_changed p s h = h
step-HasNoFigures (fetch_answered o) p s h = elim (Bool-cases (p.fetches == 0)) [
  | inl none_left ↦ rw none_left h
  | inr due ↦ rw due (fetch_ends-HasNoFigures o (record p { fetches = p.fetches - 1 }) s h)
]
step-HasNoFigures clicked_edit p s h = h
step-HasNoFigures clicked_cancel p s h = h
step-HasNoFigures (typed f) p s h = h
step-HasNoFigures clicked_save p s h = elim (Bool-cases p.saving) [
  | inl busy ↦ simp (busy) h
  | inr free ↦ simp (free) h
]
step-HasNoFigures (save_answered i o) p s h = save_ends-HasNoFigures i o p (get_elem? p.saves i) s h
step-HasNoFigures (set_delete_modal b) p s h = h
step-HasNoFigures cancelled_delete p s h = h
step-HasNoFigures (typed_confirmation t) p s h = h
step-HasNoFigures clicked_delete p s h =
    elim (Bool-cases (text_eq p.delete_confirmation (lit "DELETE"))) [
      | inl typed_it ↦ simp (typed_it) h
      | inr other ↦ simp (other) h
    ]
step-HasNoFigures (delete_answered o) p s h = elim (Bool-cases (p.deletions == 0)) [
  | inl none_left ↦ rw none_left h
  | inr due ↦ rw due (finish_deleting-HasNoFigures o (record p { deletions = p.deletions - 1 }) h)
]

run-HasNoFigures :
    (es : List Event) (p : Page) → All IsFigureless es → HasNoFigures p → HasNoFigures (run es p)
unfolding run
run-HasNoFigures [] p s h = h
run-HasNoFigures (e ∷ es) p (s, ss) h =
    run-HasNoFigures es (step e p) ss (step-HasNoFigures e p s h)

module _ (p : Platform) {Included : Type 0} (profiles : Profiles p Included) where
  -- `PUT` answers with the row or refuses.
  abbrev IsPut : Result (Reply Included) → Type 0
  IsPut r =
      ((row : UserRow Included) × (r ≡ ok (updated row)))
      ⊎ ((n : ℕ) × (m : Text) × (r ≡ ok (Reply.refused n m)))

  put_profile-IsPut :
      (change : ProfileChange) (authorization : Option Text) (w : p.World)
      → IsPut (put_profile p profiles (ok change) authorization w).0
  unfolding put_profile
  put_profile-IsPut change none w = inr (401, lit "Unauthorized", refl)
  put_profile-IsPut change (some []) w = inr (401, lit "Unauthorized", refl)
  put_profile-IsPut change (some (c ∷ s)) w =
      go (profiles.verify_token (remove_first (c ∷ s) (lit "Bearer ")))
    where
      answer :
          (r : Result (UserRow Included) × p.World)
          → IsPut
              (catch_from {A = Reply Included}
                (λ e. return (Reply.refused 500 (lit "Failed to update profile")))
                (bind_from (λ user. return (updated user)) r)).0
      answer (ok row, w₁) = inl (row, refl)
      answer (err e, w₁) = inr (500, lit "Failed to update profile", refl)

      go :
          (r : Result (Option Claims))
          → IsPut
              (catch_from
                (λ e. return (Reply.refused 500 (lit "Failed to update profile")))
                (admitted p profiles (change_user p profiles (ok change)) r w)).0
      go (err e) = inr (500, lit "Failed to update profile", refl)
      go (ok none) = inr (401, lit "Invalid token", refl)
      go (ok (some claims)) = answer (profiles.update_user claims.user_id change w)

  -- An answer of `PUT` brings no figure.
  put_profile-IsFigureless :
      (change : ProfileChange) (authorization : Option Text) (w : p.World)
      → IsFigureless
          (save_answered 0 (outcome_of (put_profile p profiles (ok change) authorization w).0))
  unfolding figures_of
  put_profile-IsFigureless change authorization w =
      elim (put_profile-IsPut change authorization w) [
        | inl (row, e) ↦ rw e refl
        | inr (n, m, e) ↦ rw e tt
      ]

  -- Once the route has answered a saved change with the row of the user, the page shows the counts of
  -- keys, requests and invoices as 0, and goes on so through whatever happens before a fetch of the
  -- profile is answered, where further saves are answered without figures, too.
  pub put_profile-figures :
      (f : Form) (page : Page) (authorization : Option Text) (w : p.World) (row : UserRow Included)
      (es : List Event)
      → page.saves ≡ f ∷ []
      → (put_profile p profiles (ok (change_of f)) authorization w).0 ≡ ok (updated row)
      → All IsFigureless es
      → let reply = (put_profile p profiles (ok (change_of f)) authorization w).0 in
        HasNoFigures (run (save_answered 0 (outcome_of reply) ∷ es) page)
  unfolding run step finish_saving figures_of
  put_profile-figures f page authorization w row es sent saved later =
      rw (sent, saved) (run-HasNoFigures es _ later (shown row none none none, refl, refl))
