-- ===== src/Dashboard/Reading.antt =====
-- What the dashboard answers to a member.
use multi_rpc.Prelude.{
  ℕ, ◌+◌, ◌≡◌, refl, ap, ◌∙◌, Bool, true, false, any, find, Option, some, List, [], ◌∷◌, Text, lit,
  remove_first, length, ok, Act, arith, Bool-cases, inl, inr, ℤ, All,
}
use multi_rpc.Platform.{Platform, KeyRow, UsageRow}
use multi_rpc.Middleware.{Privy}
use multi_rpc.ApiKey.{CreateOptions, CreatedKey, create, key_length}
use multi_rpc.ApiKey.Format.{IsByte}
use multi_rpc.ApiKey.Verify.{KeyTable, has_key}
use multi_rpc.ApiKey.Lifecycle.{create-stored}
use multi_rpc.Dashboard.{
  Totals, Member, Overview, overview, add_usage, no_usage, total_usage, overview_of, serialize,
  nothing_known, has_big_int, read_member, get_dashboard,
}

-- the sum of a column of the usage
abbrev pub column : (UsageRow → ℕ) → List UsageRow → ℕ
column f [] = 0
column f (row ∷ rows) = f row + column f rows

-- A total that grows by a column of each row grows by the column's sum.
total_usage-column :
    (total : Totals → ℕ) (f : UsageRow → ℕ)
    (step : (acc : Totals) (row : UsageRow) → total (add_usage acc row) ≡ total acc + f row)
    (acc : Totals) (rows : List UsageRow)
    → total (total_usage acc rows) ≡ total acc + column f rows
unfolding total_usage
total_usage-column total f step acc [] = omega arith
total_usage-column total f step acc (row ∷ rows) =
    ground (arith, total_usage-column total f step (add_usage acc row) rows, step acc row)

total_usage-sum :
    (total : Totals → ℕ) (f : UsageRow → ℕ)
    (step : (acc : Totals) (row : UsageRow) → total (add_usage acc row) ≡ total acc + f row)
    (start : total no_usage ≡ 0) (rows : List UsageRow)
    → total (total_usage no_usage rows) ≡ column f rows
total_usage-sum total f step start rows =
    ground (arith, total_usage-column total f step no_usage rows, start)

any-find :
    (test big : KeyRow → Bool) (rows : List KeyRow) (row : KeyRow)
    → find test rows ≡ some row
    → big row ≡ true
    → any big rows ≡ true
any-find test big [] row h k = cc h
any-find test big (x ∷ rows) row h k = elim (Bool-cases (test x)) [
  | inl y ↦
      let same : some x ≡ some row = (rw y at h) in
      let same' : x ≡ row = cc same in rw (ap big same' ∙ k) refl
  | inr n ↦ elim (Bool-cases (big x)) [
    | inl y ↦ rw y refl
    | inr m ↦ rw m (any-find test big rows row (rw n at h) k)
  ]
]

has_big_int-some : (row : KeyRow) {n : ℤ} → row.monthly_limit ≡ some n → has_big_int row ≡ true
has_big_int-some row h = rw (has_big_int, h) refl

module _ (p : Platform) (find_member : Text → ℕ → Act p.World (Option Member)) (since : ℕ → ℕ)
    (privy : Option Privy) where
  -- A member who is found and has no key with a monthly limit gets the keys, and for each of the five
  -- figures the sum over the usage that was read.
  pub read_member-totals :
      (id : Text) (w w₁ : p.World) (member : Member)
      → find_member id (since (p.now w)) w ≡ (ok (some member), w₁)
      → any has_big_int member.api_keys ≡ false
      → (o : Overview) × (read_member p find_member since privy id w ≡ (ok (overview o), w₁))
        × (o.api_keys ≡ member.api_keys)
        × (o.usage.requests ≡ column (λ r. r.requests) member.usage)
        × (o.usage.success_count ≡ column (λ r. r.success_count) member.usage)
        × (o.usage.error_count ≡ column (λ r. r.error_count) member.usage)
        × (o.usage.bytes_in ≡ column (λ r. r.bytes_in) member.usage)
        × (o.usage.bytes_out ≡ column (λ r. r.bytes_out) member.usage)
  unfolding read_member serialize overview_of no_usage add_usage
  read_member-totals id w w₁ member found plain = (
    overview_of member,
    rw (found, plain) refl,
    refl,
    total_usage-sum (λ t. t.requests) _ (λ acc row. refl) refl member.usage,
    total_usage-sum (λ t. t.success_count) _ (λ acc row. refl) refl member.usage,
    total_usage-sum (λ t. t.error_count) _ (λ acc row. refl) refl member.usage,
    total_usage-sum (λ t. t.bytes_in) _ (λ acc row. refl) refl member.usage,
    total_usage-sum (λ t. t.bytes_out) _ (λ acc row. refl) refl member.usage,
  )

  -- a key with a monthly limit hides the whole overview
  read_member-big_int :
      (id : Text) (w w₁ : p.World) (member : Member)
      → find_member id (since (p.now w)) w ≡ (ok (some member), w₁)
      → any has_big_int member.api_keys ≡ true
      → read_member p find_member since privy id w ≡ (ok nothing_known, w₁)
  unfolding read_member serialize overview_of
  read_member-big_int id w w₁ member found big = rw (found, big) refl

-- If the query for a member finds every stored key of the member, and the source of random bytes gives
-- as many bytes as it is asked for, then a member who created a key, and whose token names them, is
-- answered, by a dashboard that finds them right after, as if nothing were known: no keys, no usage,
-- and the limits of the free plan.
pub get_dashboard-create :
    (p : Platform) (table : KeyTable p) (find_member : Text → ℕ → Act p.World (Option Member))
    (since : ℕ → ℕ) (check : Privy)
    (complete : (id hash : Text) (from : ℕ) (w w₁ : p.World) (member : Member) (row : KeyRow)
      → find_member id from w ≡ (ok (some member), w₁)
      → find (has_key hash) (table.keys w) ≡ some row
      → row.user_id ≡ member.id
      → find (has_key hash) member.api_keys ≡ some row)
    (id name : Text) (options : CreateOptions) (w w₁ : p.World) (c : CreatedKey) (member : Member)
    (x : ℕ) (s : Text)
    → let after = (create p member.id name options w).1 in
      All IsByte (p.random_bytes key_length w).0
      → length (p.random_bytes key_length w).0 ≡ key_length
      → (create p member.id name options w).0 ≡ ok c
      → find_member id (since (p.now after)) after ≡ (ok (some member), w₁)
      → check (remove_first (x ∷ s) (lit "Bearer ")) ≡ ok (some id)
      → get_dashboard p find_member since (some check) (some (x ∷ s)) after ≡ (ok nothing_known, w₁)
unfolding get_dashboard
get_dashboard-create p table find_member since check complete id name options w w₁ c member x s
      bytes n made found known =
    let after = (create p member.id name options w).1 in
    let (row, valid, stored, on, expiry, same_id, owner, rate, monthly) =
      create-stored p table member.id name options w c bytes n made in
    let hash = p.sha256_hex c.row.key in
    let theirs = complete id hash (since (p.now after)) after w₁ member row found stored owner in
    let big =
      any-find (has_key hash) has_big_int member.api_keys row theirs
        (has_big_int-some row monthly) in
    rw (known, read_member-big_int p find_member since (some check) id after w₁ member found big)
      refl
