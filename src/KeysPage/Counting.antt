-- ===== src/KeysPage/Counting.antt =====
-- The figures above the table against what the table is filtered to.
use multi_rpc.Prelude.{
  ◌+◌, ◌≡◌, refl, true, not, Bool-cases, inl, inr, none, List, [], ◌∷◌, filter, length, Text,
  starts_with, ok, arith,
}
use multi_rpc.KeysPage.{
  ApiKey, View, Status, all_keys, active_keys, inactive_keys, includes, matches_status,
  matches_environment, matches_search, matches, filtered_keys, filter_or_throw, figures_of,
}

includes-nil : (s : Text) → includes s [] ≡ true
unfolding includes starts_with
includes-nil [] = refl
includes-nil (c ∷ s) = refl

-- the view with no query and only a status
abbrev pub whole : Status → View
whole status = record { query = []; status = status; environment = none; show_secrets = [] }

length-parts :
    (ks : List ApiKey)
    → length (filter (λ (k : ApiKey). k.active) ks)
        + length (filter (λ (k : ApiKey). not k.active) ks)
      ≡ length ks
length-parts [] = omega arith
length-parts (k ∷ ks) = ground (arith, length-parts ks)

module _ (lower : Text → Text) (empty : lower [] ≡ []) where
  matches-whole :
      (status : Status) (k : ApiKey) → matches lower (whole status) k ≡ ok (matches_status status k)
  unfolding matches matches_search matches_environment
  matches-whole status k =
      rw (empty, includes-nil (lower k.name))
        (elim (Bool-cases (matches_status status k)) [ inl y ↦ rw y refl | inr n ↦ rw n refl ])

  filtered_keys-whole :
      (status : Status) (ks : List ApiKey)
      → filtered_keys lower (whole status) ks ≡ ok (filter (matches_status status) ks)
  unfolding filtered_keys filter_or_throw
  filtered_keys-whole status [] = refl
  filtered_keys-whole status (k ∷ ks) =
      rw (matches-whole status k, filtered_keys-whole status ks) refl

  filter-all : (ks : List ApiKey) → filter (matches_status all_keys) ks ≡ ks
  unfolding matches_status
  filter-all [] = refl
  filter-all (k ∷ ks) = rw (filter-all ks) refl

  -- With no query and no environment the table holds all keys, the active ones or the inactive ones, by
  -- the status that is chosen; the figures say how many the first two are, and the two parts together
  -- are as many as all.
  pub filtered_keys-figures :
      (ks : List ApiKey)
      → (on off : List ApiKey) × (filtered_keys lower (whole all_keys) ks ≡ ok ks)
        × (filtered_keys lower (whole active_keys) ks ≡ ok on)
        × (filtered_keys lower (whole inactive_keys) ks ≡ ok off)
        × ((figures_of ks).total ≡ length on + length off)
        × ((figures_of ks).active ≡ length on)
  unfolding figures_of matches_status
  filtered_keys-figures ks = (
    filter (λ (k : ApiKey). k.active) ks,
    filter (λ (k : ApiKey). not k.active) ks,
    rw (filtered_keys-whole all_keys ks, filter-all ks) refl,
    filtered_keys-whole active_keys ks,
    filtered_keys-whole inactive_keys ks,
    omega (arith, length-parts ks),
    refl,
  )
