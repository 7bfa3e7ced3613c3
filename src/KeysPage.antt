-- ===== src/KeysPage.antt =====
-- web-ui/src/app/dashboard/keys/enhanced-keys.tsx: the page of the keys. Only the table's rows and the
-- figures above it are drawn here; `toLowerCase` is the parameter `lower`. The dialogs that show and
-- edit a key, which no row of the route's can open, and the clipboard are left out.
pub mod Drawing
pub mod Counting
pub mod Requests
use multi_rpc.Prelude.{
  ℕ, ◌+◌, ◌-◌, ℤ, pos, Bool, true, false, not, ◌&&◌, ◌||◌, ◌==◌, Option, none, some, List, [], ◌∷◌,
  ◌++◌, filter, map, get_elem?, length, drop, Text, lit, text_or, text_eq, starts_with, substring,
  Dict, get, set, Result, ok, err, if◌then◌else◌,
}
use multi_rpc.Browser.{Outcome, lost, refused, answered, without_at}
use multi_rpc.KeyRoute.{trim}
use multi_rpc.Endpoints.{is_given}
use multi_rpc.ApiKey.{ListedKey}

pub record Usage : Type 0 where
  pub requests : ℕ
  pub errors : ℕ
  pub bytes_in : ℕ
  pub bytes_out : ℕ

-- what the page reads of a key; a property that the answer does not have is `none`
pub record ApiKey : Type 0 where
  pub id : Text
  pub name : Text
  pub key : Option Text
  pub active : Bool
  pub environment : Option Text
  pub usage : Option Usage
  pub permissions : Option (List Text)

-- a key of the route's answer, as the page finds it
unfoldable pub of_listed : ListedKey → ApiKey
of_listed k = record {
  id = k.id;
  name = k.name;
  key = none;
  active = k.active;
  environment = none;
  usage = none;
  permissions = none;
}

abbrev no_usage : Usage
no_usage = record { requests = 0; errors = 0; bytes_in = 0; bytes_out = 0 }

abbrev usage_or : Option Usage → Usage
usage_or none = no_usage
usage_or (some u) = u

abbrev permissions_or : Option (List Text) → List Text
permissions_or none = []
permissions_or (some ps) = ps

-- the safe defaults of `fetchApiKeys`
unfoldable pub enhance : ApiKey → ApiKey
enhance k = record k {
  environment = some (text_or k.environment (lit "development"));
  usage = some (usage_or k.usage);
  permissions = some (permissions_or k.permissions);
}

pub data Status : Type 0 where
  all_keys active_keys inactive_keys : Status

pub record View : Type 0 where
  pub query : Text
  pub status : Status
  -- nothing for `all`
  pub environment : Option Text
  pub show_secrets : Dict Bool

pub record Figures : Type 0 where
  pub total : ℕ
  pub active : ℕ
  pub total_requests : ℕ
  pub total_errors : ℕ

-- `s.includes(q)`
unfoldable pub includes : Text → Text → Bool
includes [] q = starts_with [] q
includes (c ∷ s) q = starts_with (c ∷ s) q || includes s q

unfoldable pub matches_status : Status → ApiKey → Bool
matches_status all_keys k = true
matches_status active_keys k = k.active
matches_status inactive_keys k = not k.active

abbrev equal_texts : Option Text → Text → Bool
equal_texts none e = false
equal_texts (some d) e = text_eq d e

unfoldable pub matches_environment : Option Text → ApiKey → Bool
matches_environment none k = true
matches_environment (some e) k = equal_texts k.environment e

abbrev pub keep : {A : Type 0} → Result Bool → A → Result (List A) → Result (List A)
keep (err e) x rest = err e
keep (ok kept) x (err e) = err e
keep (ok kept) x (ok xs) = ok (if kept then x ∷ xs else xs)

abbrev pub put : {B : Type 0} → Result B → Result (List B) → Result (List B)
put (err e) rest = err e
put (ok y) (err e) = err e
put (ok y) (ok ys) = ok (y ∷ ys)

-- `[…].filter(test)` and `.map(f)` where the callback may throw
unfoldable pub filter_or_throw : {A : Type 0} → (A → Result Bool) → List A → Result (List A)
filter_or_throw test [] = ok []
filter_or_throw test (x ∷ xs) = keep (test x) x (filter_or_throw test xs)

unfoldable pub map_or_throw : {A B : Type 0} → (A → Result B) → List A → Result (List B)
map_or_throw f [] = ok []
map_or_throw f (x ∷ xs) = put (f x) (map_or_throw f xs)

-- `reduce`
unfoldable pub total_from : ℕ → (Usage → ℕ) → List ApiKey → ℕ
total_from acc f [] = acc
total_from acc f (k ∷ ks) = total_from (acc + f (usage_or k.usage)) f ks

-- `stats`
unfoldable pub figures_of : List ApiKey → Figures
figures_of ks = record {
  total = length ks;
  active = length (filter (λ (k : ApiKey). k.active) ks);
  total_requests = total_from 0 (λ u. u.requests) ks;
  total_errors = total_from 0 (λ u. u.errors) ks;
}

-- `prev[keyId]`
abbrev is_shown : Option Bool → Bool
is_shown none = false
is_shown (some b) = b

-- `toggleKeyVisibility`
unfoldable pub toggle_key_visibility : Text → View → View
toggle_key_visibility id v = record v {
  show_secrets = set id (not (is_shown (get id v.show_secrets))) v.show_secrets;
}

-- `apiKey.key`, or its ends
abbrev masked : Option Text → Result (Option Text)
masked none = err (lit "Cannot read properties of undefined (reading 'substring')")
masked (some k) = ok (some (substring k 0 8 ++ (lit "..." ++ drop (length k - 4) k)))

unfoldable pub code_of : Dict Bool → ApiKey → Result (Option Text)
code_of shown k = if is_shown (get k.id shown) then ok k.key else masked k.key

module _ (lower : Text → Text) where
  abbrev key_includes : Option Text → Text → Result Bool
  key_includes none query = err (lit "Cannot read properties of undefined (reading 'toLowerCase')")
  key_includes (some k) query = ok (includes (lower k) (lower query))

  unfoldable pub matches_search : Text → ApiKey → Result Bool
  matches_search query k =
      if includes (lower k.name) (lower query) then ok true else key_includes k.key query

  abbrev pub rest_matches : View → ApiKey → Result Bool → Result Bool
  rest_matches v k (err e) = err e
  rest_matches v k (ok found) =
      ok (found && (matches_status v.status k && matches_environment v.environment k))

  unfoldable pub matches : View → ApiKey → Result Bool
  matches v k = rest_matches v k (matches_search v.query k)

  -- `filteredKeys`
  unfoldable pub filtered_keys : View → List ApiKey → Result (List ApiKey)
  filtered_keys v ks = filter_or_throw (matches v) ks

  abbrev pub codes_of : View → Result (List ApiKey) → Result (List (Option Text))
  codes_of v (err e) = err e
  codes_of v (ok found) = map_or_throw (code_of v.show_secrets) found

  -- the codes in the rows of the table
  unfoldable pub drawn_codes : View → List ApiKey → Result (List (Option Text))
  drawn_codes v ks = codes_of v (filtered_keys v ks)
