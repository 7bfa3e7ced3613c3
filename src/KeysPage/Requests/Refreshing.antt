-- ===== src/KeysPage/Requests/Refreshing.antt =====
-- What holds the buttons of the dialogs back.
use multi_rpc.Prelude.{
  ℕ, zero, suc, ◌+◌, ◌≡◌, refl, Bool, true, false, Option, none, some, List, [], ◌∷◌, ◌++◌,
  get_elem?, length, length-append, Text, arith, inl, inr, Bool-cases,
}
use multi_rpc.Browser.{Outcome, lost, refused, answered, without_at}
use multi_rpc.KeysPage.{ApiKey}
use multi_rpc.KeysPage.Requests.{
  Page, Event, effect_ran, KeyForm, After, nothing, ends_creating, ends_deleting, set_create_modal,
  set_delete_modal, typed, switched, clicked_create, chose_delete, clicked_delete, clicked_toggle,
  fetch_answered, create_answered, delete_answered, toggle_answered, fetch_api_keys, go_on,
  finish_fetching, create_api_key, finish_creating, delete_api_key, finish_deleting,
  toggle_key_status, finish_toggling, click_create, click_delete, delete_chosen, fetch_ends,
  create_ends, delete_ends, toggle_ends, step, run, mounted,
}

abbrev pub creating_among : List After → ℕ
creating_among [] = 0
creating_among (ends_creating ∷ rest) = suc (creating_among rest)
creating_among (nothing ∷ rest) = creating_among rest
creating_among (ends_deleting ∷ rest) = creating_among rest

abbrev pub deleting_among : List After → ℕ
deleting_among [] = 0
deleting_among (ends_deleting ∷ rest) = suc (deleting_among rest)
deleting_among (nothing ∷ rest) = deleting_among rest
deleting_among (ends_creating ∷ rest) = deleting_among rest

abbrev pub as_number : Bool → ℕ
as_number true = 1
as_number false = 0

-- Each flag counts the handlers that it stands for and that have not ended.
pub record IsBusy (p : Page) : Type 0 where
  pub creates : length p.creating + creating_among p.fetching ≡ as_number p.is_creating
  pub deletes : length p.deleting + deleting_among p.fetching ≡ as_number p.is_deleting

creating_among-append :
    (xs : List After) (a : After)
    → creating_among (xs ++ a ∷ []) ≡ creating_among xs + creating_among (a ∷ [])
creating_among-append [] a = omega arith
creating_among-append (nothing ∷ xs) a = creating_among-append xs a
creating_among-append (ends_creating ∷ xs) a = omega (arith, creating_among-append xs a)
creating_among-append (ends_deleting ∷ xs) a = creating_among-append xs a

deleting_among-append :
    (xs : List After) (a : After)
    → deleting_among (xs ++ a ∷ []) ≡ deleting_among xs + deleting_among (a ∷ [])
deleting_among-append [] a = omega arith
deleting_among-append (nothing ∷ xs) a = deleting_among-append xs a
deleting_among-append (ends_creating ∷ xs) a = deleting_among-append xs a
deleting_among-append (ends_deleting ∷ xs) a = omega (arith, deleting_among-append xs a)

-- An answered request is one less.
creating_among-without_at :
    (i : ℕ) (xs : List After) (a : After)
    → get_elem? xs i ≡ some a
    → creating_among xs ≡ creating_among (without_at i xs) + creating_among (a ∷ [])
creating_among-without_at i [] a h = cc h
creating_among-without_at zero (x ∷ xs) a h = ground arith
creating_among-without_at (suc i) (x ∷ xs) a h = ground (arith, creating_among-without_at i xs a)

deleting_among-without_at :
    (i : ℕ) (xs : List After) (a : After)
    → get_elem? xs i ≡ some a
    → deleting_among xs ≡ deleting_among (without_at i xs) + deleting_among (a ∷ [])
deleting_among-without_at i [] a h = cc h
deleting_among-without_at zero (x ∷ xs) a h = ground arith
deleting_among-without_at (suc i) (x ∷ xs) a h = ground (arith, deleting_among-without_at i xs a)

length-without_at {ℓ} :
    {A : Type ℓ} (i : ℕ) (xs : List A) (a : A)
    → get_elem? xs i ≡ some a
    → length xs ≡ suc (length (without_at i xs))
length-without_at i [] a h = cc h
length-without_at zero (x ∷ xs) a h = omega arith
length-without_at (suc i) (x ∷ xs) a h = omega (arith, length-without_at i xs a h)

among-without_at :
    (i : ℕ) (xs : List After) (a : After)
    → get_elem? xs i ≡ some a
    → (creating_among xs ≡ creating_among (without_at i xs) + creating_among (a ∷ []))
      × (deleting_among xs ≡ deleting_among (without_at i xs) + deleting_among (a ∷ []))
among-without_at i xs a h = (creating_among-without_at i xs a h, deleting_among-without_at i xs a h)

among-append :
    (xs : List After) (a : After)
    → (creating_among (xs ++ a ∷ []) ≡ creating_among xs + creating_among (a ∷ []))
      × (deleting_among (xs ++ a ∷ []) ≡ deleting_among xs + deleting_among (a ∷ []))
among-append xs a = (creating_among-append xs a, deleting_among-append xs a)

fetch_ends-IsBusy :
    (i : ℕ) (o : Outcome (List ApiKey)) (after : Option After) (p : Page)
    → get_elem? p.fetching i ≡ after
    → IsBusy p
    → IsBusy (fetch_ends i o p after)
unfolding finish_fetching go_on
fetch_ends-IsBusy i o none p e h = h
fetch_ends-IsBusy i lost (some a) p e h = ground (arith, among-without_at i p.fetching a e)
fetch_ends-IsBusy i (refused m) (some a) p e h = ground (arith, among-without_at i p.fetching a e)
fetch_ends-IsBusy i (answered ks) (some a) p e h = ground (arith, among-without_at i p.fetching a e)

create_ends-IsBusy :
    (i : ℕ) (o : Outcome (Unit {0})) (f : Option KeyForm) (p : Page)
    → get_elem? p.creating i ≡ f
    → IsBusy p
    → IsBusy (create_ends i o p f)
unfolding finish_creating fetch_api_keys
create_ends-IsBusy i o none p e h = h
create_ends-IsBusy i lost (some f) p e h = ground (arith, length-without_at i p.creating f e)
create_ends-IsBusy i (refused m) (some f) p e h = ground (arith, length-without_at i p.creating f e)
create_ends-IsBusy i (answered u) (some f) p e h =
    ground (arith, length-without_at i p.creating f e, among-append p.fetching ends_creating)

delete_ends-IsBusy :
    (i : ℕ) (o : Outcome (Unit {0})) (id : Option Text) (p : Page)
    → get_elem? p.deleting i ≡ id
    → IsBusy p
    → IsBusy (delete_ends i o p id)
unfolding finish_deleting fetch_api_keys
delete_ends-IsBusy i o none p e h = h
delete_ends-IsBusy i lost (some id) p e h = ground (arith, length-without_at i p.deleting id e)
delete_ends-IsBusy i (refused m) (some id) p e h =
    ground (arith, length-without_at i p.deleting id e)
delete_ends-IsBusy i (answered u) (some id) p e h =
    ground (arith, length-without_at i p.deleting id e, among-append p.fetching ends_deleting)

toggle_ends-IsBusy :
    (i : ℕ) (o : Outcome (Unit {0})) (t : Option (Text × Bool)) (p : Page)
    → IsBusy p
    → IsBusy (toggle_ends i o p t)
unfolding finish_toggling fetch_api_keys
toggle_ends-IsBusy i o none p h = h
toggle_ends-IsBusy i lost (some t) p h = ground arith
toggle_ends-IsBusy i (refused m) (some t) p h = ground arith
toggle_ends-IsBusy i (answered u) (some t) p h = ground (arith, among-append p.fetching nothing)

click_create-IsBusy : (p : Page) → IsBusy p → IsBusy (click_create p)
unfolding click_create create_api_key
click_create-IsBusy p h = ground (arith, length-append p.creating (p.key_form ∷ []))

delete_chosen-IsBusy :
    (id : Option Text) (p : Page) → p.is_deleting ≡ false → IsBusy p → IsBusy (delete_chosen id p)
unfolding delete_api_key
delete_chosen-IsBusy none p free h = h
delete_chosen-IsBusy (some []) p free h = h
delete_chosen-IsBusy (some (c ∷ s)) p free h =
    ground (arith, length-append p.deleting ((c ∷ s) ∷ []))

click_delete-IsBusy : (p : Page) → IsBusy p → IsBusy (click_delete p)
unfolding click_delete
click_delete-IsBusy p h = elim (Bool-cases p.is_deleting) [
  | inl held ↦ simp (held) h
  | inr free ↦ simp (free) (delete_chosen-IsBusy p.key_to_delete p free h)
]

step-IsBusy : (e : Event) (p : Page) → IsBusy p → IsBusy (step e p)
unfolding step toggle_key_status fetch_api_keys
step-IsBusy effect_ran p h = ground (arith, among-append p.fetching nothing)
step-IsBusy (set_create_modal b) p h = ground arith
step-IsBusy (set_delete_modal b) p h = ground arith
step-IsBusy (typed f) p h = ground arith
step-IsBusy (switched q b) p h = ground arith
step-IsBusy clicked_create p h = click_create-IsBusy p h
step-IsBusy (chose_delete id) p h = ground arith
step-IsBusy clicked_delete p h = click_delete-IsBusy p h
step-IsBusy (clicked_toggle id b) p h = ground arith
step-IsBusy (fetch_answered i o) p h = fetch_ends-IsBusy i o (get_elem? p.fetching i) p refl h
step-IsBusy (create_answered i o) p h = create_ends-IsBusy i o (get_elem? p.creating i) p refl h
step-IsBusy (delete_answered i o) p h = delete_ends-IsBusy i o (get_elem? p.deleting i) p refl h
step-IsBusy (toggle_answered i o) p h = toggle_ends-IsBusy i o (get_elem? p.toggling i) p h

run_from-IsBusy : (es : List Event) (p : Page) → IsBusy p → IsBusy (run es p)
unfolding run
run_from-IsBusy [] p h = h
run_from-IsBusy (e ∷ es) p h = run_from-IsBusy es (step e p) (step-IsBusy e p h)

-- Whatever happens on the page, each of the two flags that hold a button back is up exactly while one
-- handler of that button has not ended, be it at its request or at the fetch of the keys behind it; so
-- no button is pressed twice, and none is held back when nothing is on its way.
pub run-IsBusy : (es : List Event) → IsBusy (run es mounted)
unfolding mounted
run-IsBusy es = run_from-IsBusy es mounted (ground arith)
