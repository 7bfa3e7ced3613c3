-- ===== src/AnalyticsPage/Caching.antt =====
-- A cache that agrees with the server: what it keeps under the key of a range is the server's answer.
use multi_rpc.Prelude.{
  ℕ, ◌≡◌, refl, ap, subst, true, Bool-cases, Option-cases, inl, inr, Option, none, some, [], ◌∷◌,
  Text, text_eq, text_eq_iff, All, get, set, delete, remove_where,
}
use multi_rpc.ApiCache.{Cache, CacheEntry, is_expired, store, fetch_cached, clear_expired}
use multi_rpc.AnalyticsPage.{TimeRange, hours_24, days_7, days_30, key_of}

-- a key that is the one of a range and of another one
as_key :
    (range : TimeRange) (key : Text) (other : TimeRange)
    → text_eq key (key_of range) ≡ true
    → text_eq key (key_of other) ≡ true
    → text_eq (key_of range) (key_of other) ≡ true
as_key range key other h k =
    subst (λ s. text_eq s (key_of other) ≡ true) ((text_eq_iff key (key_of range)).0 h) k

pub key_of-injective : (a b : TimeRange) → text_eq (key_of a) (key_of b) ≡ true → a ≡ b
unfolding text_eq
key_of-injective hours_24 hours_24 h = refl
key_of-injective hours_24 days_7 h = cc h
key_of-injective hours_24 days_30 h = cc h
key_of-injective days_7 hours_24 h = cc h
key_of-injective days_7 days_7 h = refl
key_of-injective days_7 days_30 h = cc h
key_of-injective days_30 hours_24 h = cc h
key_of-injective days_30 days_7 h = cc h
key_of-injective days_30 days_30 h = refl

module _ {A : Type 0} (server : TimeRange → A) where
  -- an entry under the key of a range has the server's answer for it
  abbrev pub IsServed : Text × CacheEntry A → Type 0
  IsServed (key, entry) =
      (range : TimeRange) → text_eq key (key_of range) ≡ true → entry.value ≡ server range

  abbrev pub Agrees : Cache A → Type 0
  Agrees cache = All IsServed cache

  pub get-Agrees :
      (range : TimeRange) (cache : Cache A) (entry : CacheEntry A)
      → Agrees cache
      → get (key_of range) cache ≡ some entry
      → entry.value ≡ server range
  unfolding get
  get-Agrees range [] entry h found = cc found
  get-Agrees range ((key, e) ∷ cache) entry (h, hs) found =
      elim (Bool-cases (text_eq key (key_of range))) [
        | inl same ↦
            let here : some e ≡ some entry = rw same at found in
            let same_entry : e ≡ entry = cc here in
            subst (λ x. x.value ≡ server range) same_entry (h range same)
        | inr apart ↦ get-Agrees range cache entry hs (rw apart at found)
      ]

  pub store-Agrees :
      (range : TimeRange) (ttl : Option ℕ) (now : ℕ) (cache : Cache A)
      → Agrees cache
      → Agrees (store (key_of range) (server range) ttl now cache)
  unfolding store set
  store-Agrees range ttl now [] h = (λ r same. ap server (key_of-injective range r same), tt)
  store-Agrees range ttl now ((key, e) ∷ cache) (h, hs) =
      elim (Bool-cases (text_eq key (key_of range))) [
        | inl same ↦
            rw same
              (λ r at_r. ap server (key_of-injective range r (as_key range key r same at_r)), hs)
        | inr apart ↦ rw apart (h, store-Agrees range ttl now cache hs)
      ]

  pub delete-Agrees : (key : Text) (cache : Cache A) → Agrees cache → Agrees (delete key cache)
  unfolding delete
  delete-Agrees key [] h = tt
  delete-Agrees key ((k, e) ∷ cache) (h, hs) = elim (Bool-cases (text_eq k key)) [
    | inl same ↦ rw same (delete-Agrees key cache hs)
    | inr apart ↦ rw apart (h, delete-Agrees key cache hs)
  ]

  pub clear_expired-Agrees :
      (now : ℕ) (cache : Cache A) → Agrees cache → Agrees (clear_expired now cache)
  unfolding clear_expired remove_where
  clear_expired-Agrees now [] h = tt
  clear_expired-Agrees now ((k, e) ∷ cache) (h, hs) = elim (Bool-cases (is_expired now e)) [
    | inl old ↦ rw old (clear_expired-Agrees now cache hs)
    | inr fresh ↦ rw fresh (h, clear_expired-Agrees now cache hs)
  ]

  -- what a read of the cache comes to
  abbrev pub IsRead : TimeRange → Option A × Cache A → Type 0
  IsRead range (none, cache) = Agrees cache
  IsRead range (some value, cache) = Agrees cache × (value ≡ server range)

  pub fetch_cached-IsRead :
      (range : TimeRange) (now : ℕ) (cache : Cache A)
      → Agrees cache
      → IsRead range (fetch_cached (key_of range) now cache)
  unfolding fetch_cached
  fetch_cached-IsRead range now cache h = elim (Option-cases (get (key_of range) cache)) [
    | inl absent ↦ rw absent h
    | inr (e, there) ↦ elim (Bool-cases (is_expired now e)) [
      | inl old ↦ rw (there, old) (delete-Agrees (key_of range) cache h)
      | inr fresh ↦ rw (there, fresh) (h, get-Agrees range cache e h there)
    ]
  ]
