-- ===== src/SettingsPage/Whitelist.antt =====
-- The addresses on the page.
use multi_rpc.Prelude.{
  ℕ, ◌==◌, ◌≡◌, refl, ap, true, false, not, Bool-cases, inl, inr, Option, none, some, List, [], ◌∷◌,
  ◌++◌, filter, All, Text, text_eq, text_eq_iff, text_eq_refl, get_elem?, arith,
}
use multi_rpc.Browser.{Outcome, lost, refused, answered}
use multi_rpc.Endpoints.{is_given}
use multi_rpc.Settings.{UserSettings}
use multi_rpc.SettingsPage.{
  Page, Event, user_changed, fetch_answered, clicked_save, save_answered, typed_ip, clicked_add_ip,
  clicked_remove_ip, set_notifications, set_two_factor, set_expiry, set_preferences, set_webhooks,
  switched_event, toggled_secret, regenerated, is_among, with_whitelist, add_ip_address,
  remove_ip_address, fetch_settings, finish_fetching, save_settings, save_ends, step, run, mounted,
  first_settings,
}

-- No address stands twice.
abbrev pub IsDistinct : List Text → Type 0
IsDistinct [] = Unit
IsDistinct (x ∷ xs) = (is_among x xs ≡ false) × IsDistinct xs

abbrev without : Text → List Text → List Text
without ip ips = filter (λ other. not (text_eq other ip)) ips

is_among-append :
    (x ip : Text) (xs : List Text)
    → is_among x xs ≡ false
    → text_eq ip x ≡ false
    → is_among x (xs ++ ip ∷ []) ≡ false
is_among-append x ip [] h apart = rw apart refl
is_among-append x ip (y ∷ xs) h apart = ground (arith, is_among-append x ip xs)

append-IsDistinct :
    (ip : Text) (xs : List Text)
    → is_among ip xs ≡ false
    → IsDistinct xs
    → IsDistinct (xs ++ ip ∷ [])
append-IsDistinct ip [] h d = (refl, tt)
append-IsDistinct ip (x ∷ xs) h d =
    let apart : text_eq ip x ≡ false = ground (arith, text_eq_iff ip x, text_eq_iff x ip) in
    (is_among-append x ip xs d.0 apart, append-IsDistinct ip xs (ground arith) d.1)

is_among-without :
    (x ip : Text) (xs : List Text) → is_among x xs ≡ false → is_among x (without ip xs) ≡ false
is_among-without x ip [] h = refl
is_among-without x ip (y ∷ xs) h = ground (arith, is_among-without x ip xs)

without-IsDistinct : (ip : Text) (xs : List Text) → IsDistinct xs → IsDistinct (without ip xs)
without-IsDistinct ip [] d = tt
without-IsDistinct ip (x ∷ xs) d = elim (Bool-cases (text_eq x ip)) [
  | inl same ↦ rw same (without-IsDistinct ip xs d.1)
  | inr apart ↦ rw apart (is_among-without x ip xs d.0, without-IsDistinct ip xs d.1)
]

without-append :
    (ip : Text) (xs : List Text) → is_among ip xs ≡ false → without ip (xs ++ ip ∷ []) ≡ xs
without-append ip [] h = rw (text_eq_refl ip) refl
without-append ip (x ∷ xs) h = ground (arith, without-append ip xs)

-- The whitelist of a page.
abbrev pub whitelist : Page → List Text
whitelist p = p.settings.security.ip_whitelist

-- An address that the page takes on and that is then removed leaves the settings as they were.
pub remove_ip_address-add_ip_address :
    (p : Page)
    → is_given (some p.new_ip_address) ≡ true
    → is_among p.new_ip_address (whitelist p) ≡ false
    → (whitelist (add_ip_address p) ≡ whitelist p ++ p.new_ip_address ∷ [])
      × ((remove_ip_address p.new_ip_address (add_ip_address p)).settings ≡ p.settings)
unfolding remove_ip_address add_ip_address
remove_ip_address-add_ip_address p given fresh = (
  rw (given, fresh) refl,
  rw (given, fresh)
      (ap (λ ips. with_whitelist ips p.settings)
        (without-append p.new_ip_address (whitelist p) fresh)),
)

-- What a fetch answers has no address twice.
abbrev pub HasDistinct : Event → Type 0
HasDistinct (fetch_answered (answered (some s))) = IsDistinct s.security.ip_whitelist
HasDistinct _ = Unit

finish_fetching-IsDistinct :
    (o : Outcome (Option UserSettings)) (p : Page)
    → HasDistinct (fetch_answered o)
    → IsDistinct (whitelist p)
    → IsDistinct (whitelist (finish_fetching o p))
unfolding finish_fetching
finish_fetching-IsDistinct lost p k d = d
finish_fetching-IsDistinct (refused m) p k d = d
finish_fetching-IsDistinct (answered none) p k d = d
finish_fetching-IsDistinct (answered (some s)) p k d = k

add_ip_address-IsDistinct :
    (p : Page) → IsDistinct (whitelist p) → IsDistinct (whitelist (add_ip_address p))
unfolding add_ip_address
add_ip_address-IsDistinct p d = elim (Bool-cases (is_given (some p.new_ip_address))) [
  | inr empty ↦ rw empty d
  | inl given ↦ elim (Bool-cases (is_among p.new_ip_address (whitelist p))) [
    | inl known ↦ rw (given, known) d
    | inr fresh ↦ rw (given, fresh) (append-IsDistinct p.new_ip_address (whitelist p) fresh d)
  ]
]

save_ends-IsDistinct :
    (i : ℕ) (s : Option UserSettings) (p : Page)
    → IsDistinct (whitelist p)
    → IsDistinct (whitelist (save_ends i p s))
save_ends-IsDistinct i none p d = d
save_ends-IsDistinct i (some s) p d = d

step-IsDistinct :
    (e : Event) (p : Page)
    → HasDistinct e
    → IsDistinct (whitelist p)
    → IsDistinct (whitelist (step e p))
unfolding step fetch_settings save_settings remove_ip_address
step-IsDistinct user_changed p k d = d
step-IsDistinct (fetch_answered o) p k d = elim (Bool-cases (p.fetches == 0)) [
  | inl none_left ↦ rw none_left d
  | inr due ↦ rw due (finish_fetching-IsDistinct o _ k d)
]
step-IsDistinct clicked_save p k d = elim (Bool-cases p.saving) [
  | inl busy ↦ simp (busy) d
  | inr free ↦ simp (free) d
]
step-IsDistinct (save_answered i o) p k d = save_ends-IsDistinct i (get_elem? p.saves i) p d
step-IsDistinct (typed_ip ip) p k d = d
step-IsDistinct clicked_add_ip p k d = add_ip_address-IsDistinct p d
step-IsDistinct (clicked_remove_ip ip) p k d = without-IsDistinct ip (whitelist p) d
step-IsDistinct (set_notifications n) p k d = d
step-IsDistinct (set_two_factor b) p k d = d
step-IsDistinct (set_expiry t) p k d = d
step-IsDistinct (set_preferences q) p k d = d
step-IsDistinct (set_webhooks b u) p k d = d
step-IsDistinct (switched_event id b) p k d = d
step-IsDistinct toggled_secret p k d = d
step-IsDistinct (regenerated s) p k d = d

run_from-IsDistinct :
    (es : List Event) (p : Page)
    → All HasDistinct es
    → IsDistinct (whitelist p)
    → IsDistinct (whitelist (run es p))
unfolding run
run_from-IsDistinct [] p k d = d
run_from-IsDistinct (e ∷ es) p k d =
    run_from-IsDistinct es (step e p) k.1 (step-IsDistinct e p k.0 d)

-- If no answer to a fetch holds an address twice, the page never does, whatever is typed, added,
-- removed, saved or fetched.
pub run-IsDistinct :
    (es : List Event) (secret : Text)
    → All HasDistinct es
    → IsDistinct (whitelist (run es (mounted secret)))
unfolding mounted first_settings
run-IsDistinct es secret k = run_from-IsDistinct es (mounted secret) k tt
