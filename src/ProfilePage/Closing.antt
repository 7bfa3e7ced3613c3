-- ===== src/ProfilePage/Closing.antt =====
-- What comes before a deletion.
use multi_rpc.Prelude.{
  ℕ, ◌-◌, ◌<◌, ◌≤◌, ◌≡◌, refl, Bool, true, false, ◌||◌, ◌==◌, any, Bool-cases, inl, inr, Option,
  none, some, List, [], ◌∷◌, get_elem?, Text, lit, text_eq, arith,
}
use multi_rpc.Browser.{Outcome, lost, refused, answered}
use multi_rpc.ProfilePage.{
  Page, Form, ShownUser, Event, user_changed, fetch_answered, clicked_edit, clicked_cancel, typed,
  clicked_save, save_answered, set_delete_modal, cancelled_delete, typed_confirmation,
  clicked_delete, delete_answered, fetch_user_profile, finish_fetching, cancel, handle_save,
  finish_saving, save_ends, handle_delete_account, finish_deleting, step, run, mounted,
}

abbrev pub is_confirmation : Text → Bool
is_confirmation t = text_eq t (lit "DELETE")

-- the event that types the word
abbrev pub confirms : Event → Bool
confirms (typed_confirmation t) = is_confirmation t
confirms _ = false

-- `seen` says whether the word was ever typed.
record IsConfirmed (seen : Bool) (p : Page) : Type 0 where
  pub on_screen : is_confirmation p.delete_confirmation ≡ true → seen ≡ true
  pub before : 0 < p.asked → seen ≡ true
  pub on_its_way : p.deletions ≤ p.asked
  pub after : p.logged_out ≡ true → 0 < p.asked

confirmation_of_nothing : is_confirmation [] ≡ false
unfolding text_eq
confirmation_of_nothing = refl

same-IsConfirmed :
    (seen : Bool) (p q : Page)
    → q.delete_confirmation ≡ p.delete_confirmation
    → q.asked ≡ p.asked
    → q.deletions ≡ p.deletions
    → q.logged_out ≡ p.logged_out
    → IsConfirmed seen p
    → IsConfirmed seen q
same-IsConfirmed seen p q c a d l h = record {
  on_screen = rw c h.on_screen;
  before = rw a h.before;
  on_its_way = rw (a, d) h.on_its_way;
  after = rw (a, l) h.after;
}

finish_fetching-IsConfirmed :
    (seen : Bool) (o : Outcome ShownUser) (p : Page)
    → IsConfirmed seen p
    → IsConfirmed seen (finish_fetching o p)
unfolding finish_fetching
finish_fetching-IsConfirmed seen lost p h = same-IsConfirmed seen p _ refl refl refl refl h
finish_fetching-IsConfirmed seen (refused e) p h = same-IsConfirmed seen p _ refl refl refl refl h
finish_fetching-IsConfirmed seen (answered u) p h = same-IsConfirmed seen p _ refl refl refl refl h

save_ends-IsConfirmed :
    (seen : Bool) (i : ℕ) (o : Outcome ShownUser) (f : Option Form) (p : Page)
    → IsConfirmed seen p
    → IsConfirmed seen (save_ends i o p f)
unfolding finish_saving
save_ends-IsConfirmed seen i o none p h = h
save_ends-IsConfirmed seen i lost (some f) p h = same-IsConfirmed seen p _ refl refl refl refl h
save_ends-IsConfirmed seen i (refused e) (some f) p h =
    same-IsConfirmed seen p _ refl refl refl refl h
save_ends-IsConfirmed seen i (answered u) (some f) p h =
    same-IsConfirmed seen p _ refl refl refl refl h

fewer-IsConfirmed :
    (seen : Bool) (p : Page)
    → IsConfirmed seen p
    → IsConfirmed seen (record p { deletions = p.deletions - 1 })
fewer-IsConfirmed seen p h = record {
  on_screen = h.on_screen;
  before = h.before;
  on_its_way = omega (arith, h.on_its_way);
  after = h.after;
}

finish_deleting-IsConfirmed :
    (seen : Bool) (o : Outcome (Unit {0})) (p : Page)
    → (p.deletions == 0) ≡ false
    → IsConfirmed seen p
    → IsConfirmed seen (finish_deleting o (record p { deletions = p.deletions - 1 }))
unfolding finish_deleting
finish_deleting-IsConfirmed seen lost p due h = fewer-IsConfirmed seen p h
finish_deleting-IsConfirmed seen (refused e) p due h = fewer-IsConfirmed seen p h
finish_deleting-IsConfirmed seen (answered u) p due h = record {
  on_screen = h.on_screen;
  before = h.before;
  on_its_way = omega (arith, h.on_its_way);
  after = λ _. ground arith;
}

handle_delete_account-IsConfirmed :
    (seen : Bool) (p : Page) → IsConfirmed seen p → IsConfirmed seen (handle_delete_account p)
unfolding handle_delete_account
handle_delete_account-IsConfirmed seen p h =
    elim (Bool-cases (is_confirmation p.delete_confirmation)) [
      | inl typed_it ↦ rw typed_it (record {
        on_screen = h.on_screen;
        before = λ _. h.on_screen typed_it;
        on_its_way = omega (arith, h.on_its_way);
        after = λ _. omega arith;
      })
      | inr other ↦ rw other h
    ]

later-IsConfirmed :
    (seen more : Bool) (p : Page) → IsConfirmed seen p → IsConfirmed (seen || more) p
later-IsConfirmed true more p h = h
later-IsConfirmed false more p h = record {
  on_screen = λ e. cc (h.on_screen e);
  before = λ e. cc (h.before e);
  on_its_way = h.on_its_way;
  after = h.after;
}

or_true : (seen : Bool) → (seen || true) ≡ true
or_true true = refl
or_true false = refl

typed_confirmation-IsConfirmed :
    (seen : Bool) (t : Text) (p : Page)
    → IsConfirmed seen p
    → IsConfirmed (seen || is_confirmation t) (record p { delete_confirmation = t })
typed_confirmation-IsConfirmed seen t p h =
    let later = later-IsConfirmed seen (is_confirmation t) p h in
    record {
      on_screen = λ e. rw e (or_true seen);
      before = later.before;
      on_its_way = h.on_its_way;
      after = h.after;
    }

step-IsConfirmed :
    (seen : Bool) (e : Event) (p : Page)
    → confirms e ≡ false
    → IsConfirmed seen p
    → IsConfirmed seen (step e p)
unfolding step fetch_user_profile cancel handle_save
step-IsConfirmed seen user_changed p o h = same-IsConfirmed seen p _ refl refl refl refl h
step-IsConfirmed seen (fetch_answered r) p o h = elim (Bool-cases (p.fetches == 0)) [
  | inl none_left ↦ rw none_left h
  | inr due ↦
      rw due
        (finish_fetching-IsConfirmed seen r _ (same-IsConfirmed seen p _ refl refl refl refl h))
]
step-IsConfirmed seen clicked_edit p o h = same-IsConfirmed seen p _ refl refl refl refl h
step-IsConfirmed seen clicked_cancel p o h = same-IsConfirmed seen p _ refl refl refl refl h
step-IsConfirmed seen (typed f) p o h = same-IsConfirmed seen p _ refl refl refl refl h
step-IsConfirmed seen clicked_save p o h = elim (Bool-cases p.saving) [
  | inl busy ↦ simp (busy) h
  | inr free ↦ simp (free) (same-IsConfirmed seen p _ refl refl refl refl h)
]
step-IsConfirmed seen (save_answered i r) p o h =
    save_ends-IsConfirmed seen i r (get_elem? p.saves i) p h
step-IsConfirmed seen (set_delete_modal b) p o h = same-IsConfirmed seen p _ refl refl refl refl h
step-IsConfirmed seen cancelled_delete p o h = record {
  on_screen = λ e. cc (confirmation_of_nothing, e);
  before = h.before;
  on_its_way = h.on_its_way;
  after = h.after;
}
step-IsConfirmed seen (typed_confirmation t) p o h = record {
  on_screen = λ e. cc (o, e);
  before = h.before;
  on_its_way = h.on_its_way;
  after = h.after;
}
step-IsConfirmed seen clicked_delete p o h = handle_delete_account-IsConfirmed seen p h
step-IsConfirmed seen (delete_answered r) p o h = elim (Bool-cases (p.deletions == 0)) [
  | inl none_left ↦ rw none_left h
  | inr due ↦ rw due (finish_deleting-IsConfirmed seen r p due h)
]

confirms-cases : (e : Event) → confirms e ≡ true → (t : Text) × (e ≡ typed_confirmation t)
confirms-cases (typed_confirmation t) h = (t, refl)
confirms-cases user_changed h = cc h
confirms-cases _ h = cc h

run-IsConfirmed :
    (es : List Event) (seen : Bool) (p : Page)
    → IsConfirmed seen p
    → IsConfirmed (seen || any confirms es) (run es p)
unfolding run step
run-IsConfirmed [] seen p h = later-IsConfirmed seen false p h
run-IsConfirmed (e ∷ es) seen p h = elim (Bool-cases (confirms e)) [
  | inl word ↦
      let (t, same) = confirms-cases e word in
      let next : IsConfirmed true (step e p) = rw same (
        typed_confirmation-IsConfirmed true t p
          (rw (or_true seen) at (later-IsConfirmed seen true p h))) in
      rw (word, or_true seen) (run-IsConfirmed es true (step e p) next)
  | inr no_ ↦ rw no_ (run-IsConfirmed es seen (step e p) (step-IsConfirmed seen e p no_ h))
]

mounted-IsConfirmed : IsConfirmed false mounted
unfolding mounted
mounted-IsConfirmed = record {
  on_screen = λ e. cc (confirmation_of_nothing, e);
  before = λ e. absurd (omega arith);
  on_its_way = omega arith;
  after = λ e. cc e;
}

-- Where the page has logged its user out, it had asked for the deletion of the account, and the word
-- DELETE had been typed.
pub run-logged_out :
    (es : List Event)
    → (run es mounted).logged_out ≡ true
    → (0 < (run es mounted).asked) × (any confirms es ≡ true)
run-logged_out es out =
    let h = run-IsConfirmed es false mounted mounted-IsConfirmed in
    (h.after out, h.before (h.after out))
