-- ===== src/Rpc/Post/Asking.antt =====
-- What comes of one request at one endpoint.
use multi_rpc.Prelude.{
  ◌≡◌, refl, Bool-cases, inl, inr, Text, lit, Result, ok, err, bind_from, if◌then◌else◌,
}
use multi_rpc.Json.{Json}
use multi_rpc.Platform.{Platform, HttpResponse}
use multi_rpc.Rpc.Balancer.{Env, first_url}
use multi_rpc.Rpc.Post.{Shared, Handler, await_from, ask, take_first, take_second, fall_back, mark}

module _ (p : Platform) (env : Env) where
  -- the second answer counts if it is there and `ok`
  abbrev tried_second : Result HttpResponse → Result Json
  tried_second (err e) = err e
  tried_second (ok r) = if r.is_ok then r.json else err (lit "All endpoints failed")

  -- The first answer counts if it is `ok`; if it is not, the first endpoint is asked for the same.
  abbrev tried_first : Json → Result HttpResponse × p.World → Result Json
  tried_first rpc (err e, w) = err e
  tried_first rpc (ok r, w) =
      if r.is_ok then r.json else tried_second (p.fetch (first_url env) rpc w).0

  -- What the network makes of `rpc`, sent to `url` in the world `w`.
  abbrev pub tried : Text → Json → p.World → Result Json
  tried url rpc w = tried_first rpc (p.fetch url rpc w)

  module _ (meanwhile : p.World → Shared → Shared) where
    take_second-tried :
        (s : Handler p) (r : Result HttpResponse × p.World)
        → (bind_from (take_second p env meanwhile) (await_from p env meanwhile s r)).0
          ≡ tried_second r.0
    take_second-tried s (err e, w) = refl
    take_second-tried s (ok r, w) = elim (Bool-cases r.is_ok) [
      | inl good ↦ simp (good) refl
      | inr bad ↦ simp (bad) refl
    ]

    take_first-tried :
        (url : Text) (rpc : Json) (s : Handler p) (r : Result HttpResponse × p.World)
        → (bind_from (take_first p env meanwhile url rpc) (await_from p env meanwhile s r)).0
          ≡ tried_first rpc r
    unfolding mark fall_back
    take_first-tried url rpc s (err e, w) = refl
    take_first-tried url rpc s (ok r, w) = elim (Bool-cases r.is_ok) [
      | inl good ↦ simp (good) refl
      | inr bad ↦ simp (bad) (
          take_second-tried
            (mark p env meanwhile url (record s { world = w; shared = meanwhile w s.shared })).1
            (p.fetch (first_url env) rpc w))
    ]

    pub ask-tried :
        (url : Text) (rpc : Json) (s : Handler p)
        → (ask p env meanwhile url rpc s).0 ≡ tried url rpc s.world
    unfolding ask
    ask-tried url rpc s = take_first-tried url rpc s (p.fetch url rpc s.world)
