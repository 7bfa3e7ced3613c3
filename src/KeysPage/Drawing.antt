-- ===== src/KeysPage/Drawing.antt =====
-- Which keys the page draws, and when drawing them throws.
use multi_rpc.Prelude.{
  ◌≡◌, refl, ◌∙◌, Bool, true, false, not, ◌&&◌, Bool-cases, inl, inr, ◌⊎◌, List, [], ◌∷◌, map, all,
  get, Text, lit, Result, ok, err,
}
use multi_rpc.Platform.{KeyRow}
use multi_rpc.ApiKey.{listed}
use multi_rpc.KeysPage.{
  ApiKey, View, of_listed, enhance, includes, matches_status, matches_environment, matches_search,
  matches, filtered_keys, filter_or_throw, map_or_throw, keep, codes_of, code_of, drawn_codes,
}

-- a row of the database as the page holds it, by way of the route's answer
unfoldable pub shown_key : KeyRow → ApiKey
shown_key row = enhance (of_listed (listed row))

abbrev no_ends : Text
no_ends = lit "Cannot read properties of undefined (reading 'substring')"

abbrev no_code : Text
no_code = lit "Cannot read properties of undefined (reading 'toLowerCase')"

module _ (lower : Text → Text) where
  drawn_codes-skip :
      (v : View) (k : ApiKey) (ks : List ApiKey)
      → matches lower v k ≡ ok false
      → drawn_codes lower v (k ∷ ks) ≡ drawn_codes lower v ks
  unfolding drawn_codes filtered_keys filter_or_throw
  drawn_codes-skip v k ks h = rw (h, drawn_codes) (go (filter_or_throw (matches lower v) ks))
    where
      go : (r : Result (List ApiKey)) → codes_of lower v (keep (ok false) k r) ≡ codes_of lower v r
      go (ok found) = refl
      go (err e) = refl

  drawn_codes-stop :
      (v : View) (k : ApiKey) (ks : List ApiKey) (e : Text)
      → matches lower v k ≡ err e
      → drawn_codes lower v (k ∷ ks) ≡ err e
  unfolding drawn_codes filtered_keys filter_or_throw
  drawn_codes-stop v k ks e h = rw (h, drawn_codes) refl

  drawn_codes-throw :
      (v : View) (k : ApiKey) (ks : List ApiKey) (e : Text)
      → matches lower v k ≡ ok true
      → code_of v.show_secrets k ≡ err e
      → (e' : Text) × (drawn_codes lower v (k ∷ ks) ≡ err e')
  unfolding drawn_codes filtered_keys filter_or_throw map_or_throw
  drawn_codes-throw v k ks e h thrown =
      rw (h, drawn_codes) (go (filter_or_throw (matches lower v) ks))
    where
      go :
          (r : Result (List ApiKey))
          → (e' : Text) × (codes_of lower v (keep (ok true) k r) ≡ err e')
      go (ok found) = (e, rw thrown refl)
      go (err e') = (e', refl)

  -- what the view makes of a row
  abbrev pub has_name : View → KeyRow → Bool
  has_name v row = includes (lower row.name) (lower v.query)

  abbrev pub is_chosen : View → KeyRow → Bool
  is_chosen v row =
      matches_status v.status (shown_key row) && matches_environment v.environment (shown_key row)

  abbrev pub is_hidden : View → KeyRow → Bool
  is_hidden v row = has_name v row && not (is_chosen v row)

  drawn_codes-row :
      (v : View) (row : KeyRow) (ks : List ApiKey)
      → v.show_secrets ≡ []
      → ((is_hidden v row ≡ true)
          × (drawn_codes lower v (shown_key row ∷ ks) ≡ drawn_codes lower v ks))
        ⊎ ((is_hidden v row ≡ false)
            × ((e : Text) × (drawn_codes lower v (shown_key row ∷ ks) ≡ err e)))
  unfolding shown_key matches matches_search code_of enhance of_listed listed get
  drawn_codes-row v row ks none_shown =
      let k = shown_key row in
      elim (Bool-cases (has_name v row)) [
        | inr unnamed ↦
            inr (rw unnamed refl, (no_code, drawn_codes-stop v k ks no_code (rw unnamed refl)))
        | inl named ↦ elim (Bool-cases (is_chosen v row)) [
          | inr skipped ↦
              inl (rw (named, skipped) refl, drawn_codes-skip v k ks (rw (named, skipped) refl))
          | inl chosen ↦ inr (
            rw (named, chosen) refl,
            drawn_codes-throw v k ks no_ends (rw (named, chosen) refl) (rw none_shown refl),
          )
        ]
      ]

  -- While no code is uncovered, the page draws the keys that the route lists only if it hides them all,
  -- each by its status or environment and none by its name; otherwise drawing throws.
  pub drawn_codes-listed :
      (v : View) (rows : List KeyRow)
      → v.show_secrets ≡ []
      → ((all (is_hidden v) rows ≡ true) × (drawn_codes lower v (map shown_key rows) ≡ ok []))
        ⊎ ((all (is_hidden v) rows ≡ false)
            × ((e : Text) × (drawn_codes lower v (map shown_key rows) ≡ err e)))
  unfolding drawn_codes filtered_keys filter_or_throw map_or_throw
  drawn_codes-listed v [] none_shown = inl (refl, refl)
  drawn_codes-listed v (row ∷ rows) none_shown =
      elim (drawn_codes-row v row (map shown_key rows) none_shown) [
        | inr (drawn, (e, thrown)) ↦ inr (rw drawn refl, (e, thrown))
        | inl (hidden, same) ↦ elim (drawn_codes-listed v rows none_shown) [
          | inl (rest, nothing) ↦ inl (rw hidden rest, same ∙ nothing)
          | inr (rest, (e, thrown)) ↦ inr (rw hidden rest, (e, same ∙ thrown))
        ]
      ]
