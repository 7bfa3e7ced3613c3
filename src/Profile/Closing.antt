-- ===== src/Profile/Closing.antt =====
-- What a closed account leaves of its keys.
use multi_rpc.Prelude.{
  ℕ, ◌≡◌, refl, Bool, false, ◌&&◌, none, some, ◌∷◌, map, find, Text, lit, text_eq, text_eq_refl,
  remove_first, ok, err, Result, bind_from, catch_from, return, Bool-cases, inl, inr,
}
use multi_rpc.Platform.{Platform, KeyRow}
use multi_rpc.ApiKey.{verify, deactivate}
use multi_rpc.ApiKey.Verify.{KeyTable, has_key, apply_where}
use multi_rpc.ApiKey.Lifecycle.{find-map, has_key-apply_where, verify-inactive}
use multi_rpc.Profile.{Profiles, Claims, Reply, closed, refused, delete_profile}

-- an active key of a user
abbrev pub is_active_of : Text → KeyRow → Bool
is_active_of user_id row = row.active && text_eq row.user_id user_id

closed-inactive :
    (row : KeyRow) → (apply_where (is_active_of row.user_id) deactivate row).active ≡ false
closed-inactive row = elim (Bool-cases row.active) [
  | inl y ↦ rw (y, text_eq_refl row.user_id) refl
  | inr n ↦ rw n refl
]

module _ (p : Platform) (table : KeyTable p) {Included : Type 0} (profiles : Profiles p Included)
    (id_of : Text → p.World → Text)
    (closes : (privy_id : Text) (w w₁ : p.World)
      → profiles.update_active_keys privy_id deactivate w ≡ (ok tt, w₁)
      → table.keys w₁
        ≡ map (apply_where (is_active_of (id_of privy_id w)) deactivate) (table.keys w)) where
  -- If the nested update reaches exactly the active keys of the user who is under the id of the token,
  -- then after the closing of an account was answered, no key of the account is accepted.
  pub verify-delete_profile :
      (x : ℕ) (s key : Text) (claims : Claims) (w : p.World) (row : KeyRow)
      → profiles.verify_token (remove_first (x ∷ s) (lit "Bearer ")) ≡ ok (some claims)
      → find (has_key (p.sha256_hex key)) (table.keys w) ≡ some row
      → row.user_id ≡ id_of claims.user_id w
      → (delete_profile p profiles (some (x ∷ s)) w).0 ≡ ok closed
      → (verify p key (delete_profile p profiles (some (x ∷ s)) w).1).0 ≡ ok none
  unfolding delete_profile
  verify-delete_profile x s key claims w row token known owner h =
      rw token (go (profiles.update_active_keys claims.user_id deactivate w) refl (rw token at h))
    where
      go :
          (r : Result (Unit {0}) × p.World)
          → profiles.update_active_keys claims.user_id deactivate w ≡ r
          → let end =
              catch_from {A = Reply Included}
                (λ e. return (refused 500 (lit "Failed to delete account")))
                (bind_from (λ u. return closed) r) in
            end.0 ≡ ok closed → (verify p key end.1).0 ≡ ok none
      go (ok u, w₁) e k =
          let rows = closes claims.user_id w w₁ e in
          verify-inactive p table key w₁ (apply_where (is_active_of row.user_id) deactivate row)
            (rw (rows, ← owner)
              (find-map (has_key (p.sha256_hex key)) _
                (has_key-apply_where (p.sha256_hex key) (is_active_of row.user_id) deactivate)
                (table.keys w) row known))
            (closed-inactive row)
      go (err e, w₁) f k = cc k
