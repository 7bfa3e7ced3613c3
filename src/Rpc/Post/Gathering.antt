-- ===== src/Rpc/Post/Gathering.antt =====
-- What one request adds to the replies, and what the loop over a batch gathers.
use multi_rpc.Prelude.{
  ◌≡◌, refl, Option, none, some, List, [], ◌∷◌, ◌++◌, Text, Result, ok, err, Act, bind_from,
  catch_from, catch-of_ok, bind-inv, Bool-cases, inl, inr, ap, sym, subst, ◌∙◌, ◌⊎◌, lit,
}
use mathlib.Core.List.{append_assoc, append-nil}
use multi_rpc.Json.{Json, property}
use multi_rpc.Platform.{Platform, HttpResponse}
use multi_rpc.Rpc.Balancer.{Env, first_url, get_next_endpoint}
use multi_rpc.Rpc.Post.Asking.{tried, ask-tried}
use multi_rpc.Rpc.Post.{
  Auth, Reply, upstream, failed, Shared, Handler, await_from, process, process_one, take_first,
  take_second, note_for, excuse, settle, ask, fall_back, note_usage, next_endpoint, mark, truthy,
}

-- A reply answers a request whose asking has come to `asked`: it is the value, or the error under the
-- request's id.
pub data Answers (rpc : Json) (asked : Result Json) : Reply → Type 0 where
  sent : (v : Json) → asked ≡ ok v → Answers rpc asked (upstream v)
  excused :
      (id : Json) (message : Text)
      → asked ≡ err message
      → property (lit "id") rpc ≡ ok id
      → Answers rpc asked (failed id message)

-- A value with properties has all of them: only `undefined` and `null` throw.
property_throws :
    (a b : Text) (v : Json) {e : Text}
    → property a v ≡ err e
    → (e' : Text) × (property b v ≡ err e')
unfolding property
property_throws a b Json.undefined h = (_, refl)
property_throws a b Json.null h = (_, refl)
property_throws a b (Json.bool x) h = cc h
property_throws a b (Json.num x) h = cc h
property_throws a b (Json.str x) h = cc h
property_throws a b (Json.arr x) h = cc h
property_throws a b (Json.obj x) h = cc h

module _ (p : Platform) where
  abbrev pub Out : Type 0 → Type 0
  Out A = Result A × Handler p

  -- An action leaves the replies alone.
  abbrev pub Keeps : {A : Type 0} → Act (Handler p) A → Type 0
  Keeps m = (s : Handler p) → (m s).1.responses ≡ s.responses

  bind_from-Keeps :
      {A B : Type 0} (f : A → Act (Handler p) B) (base : List Reply) (r : Out A)
      → ((a : A) → Keeps (f a))
      → r.1.responses ≡ base
      → (bind_from f r).1.responses ≡ base
  bind_from-Keeps f base (ok a, s) k h = k a s ∙ h
  bind_from-Keeps f base (err e, s) k h = h

module _ (p : Platform) (env : Env) (meanwhile : p.World → Shared → Shared) where
  -- What comes of asking for `rpc` at `turn`: the endpoint that the balancer chooses then is asked.
  abbrev pub turn : Json → Handler p → Result Json
  turn rpc s =
      tried p env (get_next_endpoint env (p.now s.world) s.shared.balancer).url rpc
        (next_endpoint p env meanwhile s).1.world

  -- One reply for each request: each is asked in the state that the ones before it have left.
  abbrev pub AnswersAll : Auth → Handler p → List Json → List Reply → Type 0
  AnswersAll auth s [] [] = Unit
  AnswersAll auth s [] (r ∷ rs) = ⊥
  AnswersAll auth s (q ∷ qs) [] = ⊥
  AnswersAll auth s (q ∷ qs) (r ∷ rs) =
      Answers q (turn q s) r × AnswersAll auth (process_one p env meanwhile auth q s).1 qs rs

  take_second-Keeps : (r : HttpResponse) → Keeps p (take_second p env meanwhile r)
  take_second-Keeps r s = elim (Bool-cases r.is_ok) [ inl y ↦ rw y | inr n ↦ rw n ]

  fall_back-Keeps : (rpc : Json) → Keeps p (fall_back p env meanwhile rpc)
  unfolding fall_back
  fall_back-Keeps rpc s =
      bind_from-Keeps p (take_second p env meanwhile) s.responses
        (await_from p env meanwhile s (p.fetch (first_url env) rpc s.world)) take_second-Keeps refl

  take_first-Keeps :
      (endpoint : Text) (rpc : Json) (r : HttpResponse)
      → Keeps p (take_first p env meanwhile endpoint rpc r)
  unfolding mark
  take_first-Keeps endpoint rpc r s = elim (Bool-cases r.is_ok) [
    | inl y ↦ rw y
    | inr n ↦ rw n (fall_back-Keeps rpc (mark p env meanwhile endpoint s).1)
  ]

  ask-Keeps : (endpoint : Text) (rpc : Json) → Keeps p (ask p env meanwhile endpoint rpc)
  unfolding ask
  ask-Keeps endpoint rpc s =
      bind_from-Keeps p (take_first p env meanwhile endpoint rpc) s.responses
        (await_from p env meanwhile s (p.fetch endpoint rpc s.world))
        (take_first-Keeps endpoint rpc) refl

  -- Noting the usage leaves the replies alone, and throws only if the request has no properties.
  note_for-cases :
      (key user : Option Text) (rpc v : Json) (s : Handler p)
      → (((note_for p env meanwhile key user rpc v s).0 ≡ ok tt)
          × ((note_for p env meanwhile key user rpc v s).1.responses ≡ s.responses))
        ⊎ ((e : Text) × (property (lit "method") rpc ≡ err e)
            × (note_for p env meanwhile key user rpc v s ≡ (err e, s)))
  unfolding note_for
  note_for-cases none user rpc v s = inl (refl, refl)
  note_for-cases (some k) none rpc v s = inl (refl, refl)
  note_for-cases (some k) (some u) rpc v s = go (property (lit "method") rpc) refl
    where
      go :
          (r : Result Json)
          → property (lit "method") rpc ≡ r
          → (((note_for p env meanwhile (some k) (some u) rpc v s).0 ≡ ok tt)
              × ((note_for p env meanwhile (some k) (some u) rpc v s).1.responses ≡ s.responses))
            ⊎ ((e : Text) × (property (lit "method") rpc ≡ err e)
                × (note_for p env meanwhile (some k) (some u) rpc v s ≡ (err e, s)))
      go (ok m) e = rw e (inl (refl, refl))
      go (err m) e = rw e (inr (m, refl, refl))

  -- After a request that did not throw, its reply stands behind those of `base`.
  abbrev Grown : List Reply → Json → Result Json → Out p (Unit {0}) → Type 0
  Grown base rpc asked r =
      r.0 ≡ ok tt → (reply : Reply) × Answers rpc asked reply × (r.1.responses ≡ base ++ reply ∷ [])

  excuse-Grown :
      (base : List Reply) (rpc : Json) (message : Text) (s : Handler p)
      → s.responses ≡ base
      → Grown base rpc (err message) (excuse p env meanwhile rpc message s)
  excuse-Grown base rpc message s e = go (property (lit "id") rpc) refl
    where
      go :
          (r : Result Json)
          → property (lit "id") rpc ≡ r
          → Grown base rpc (err message) (excuse p env meanwhile rpc message s)
      go (ok id) q = rw q (λ h. (failed id message, excused id message refl q, rw e))
      go (err m) q = rw q (λ h. cc h)

  settle-Grown :
      (base : List Reply) (auth : Auth) (rpc : Json) (r : Out p Json)
      → r.1.responses ≡ base
      → Grown base rpc r.0
          (catch_from (excuse p env meanwhile rpc) (bind_from (settle p env meanwhile auth rpc) r))
  unfolding note_usage
  settle-Grown base auth rpc (ok v, s) e =
      let s' = record s { responses = s.responses ++ upstream v ∷ [] } in
      elim (note_for-cases (truthy auth.key_id) (truthy auth.user_id) rpc v s') [
        | inl (fine, same) ↦
            rw
              (catch-of_ok (excuse p env meanwhile rpc)
                (note_for p env meanwhile (truthy auth.key_id) (truthy auth.user_id) rpc v s') tt
                fine)
              (λ _. (upstream v, sent v refl, same ∙ ap (λ l. l ++ upstream v ∷ []) e))
        | inr (m, throws, out) ↦
            let (e', q) = property_throws (lit "method") (lit "id") rpc throws in
            rw (out, q) (λ h. cc h)
      ]
  settle-Grown base auth rpc (err m, s) e = excuse-Grown base rpc m s e

  process_one-Grown :
      (auth : Auth) (rpc : Json) (s : Handler p)
      → Grown s.responses rpc (turn rpc s) (process_one p env meanwhile auth rpc s)
  unfolding process_one next_endpoint
  process_one-Grown auth rpc s =
      let s' = (next_endpoint p env meanwhile s).1 in
      let url = (get_next_endpoint env (p.now s.world) s.shared.balancer).url in
      subst (λ asked. Grown s.responses rpc asked (process_one p env meanwhile auth rpc s))
        (ask-tried p env meanwhile url rpc s')
        (settle-Grown s.responses auth rpc (ask p env meanwhile url rpc s') (ask-Keeps url rpc s'))

  pub process-AnswersAll :
      (auth : Auth) (rpcs : List Json) (s : Handler p)
      → (process p env meanwhile auth rpcs s).0 ≡ ok tt
      → (rs : List Reply) × AnswersAll auth s rpcs rs
        × ((process p env meanwhile auth rpcs s).1.responses ≡ s.responses ++ rs)
  unfolding process
  process-AnswersAll auth [] s h = ([], tt, sym (append-nil _))
  process-AnswersAll auth (rpc ∷ rest) s h =
      let one = process_one p env meanwhile auth rpc s in
      let (u, s', step, rest_) = bind-inv (λ _. process p env meanwhile auth rest) one tt h in
      let (reply, ans, grown) = process_one-Grown auth rpc s (ap (λ r. r.0) step) in
      let (rs, all, more) = process-AnswersAll auth rest s' (ap (λ r. r.0) (sym rest_) ∙ h) in
      let before : s'.responses ≡ s.responses ++ reply ∷ [] =
        ap (λ (r : Out p (Unit {0})). r.1.responses) (sym step) ∙ grown in
      (
        reply ∷ rs,
        (
          ans,
          subst (λ t. AnswersAll auth t rest rs) (ap (λ (r : Out p (Unit {0})). r.1) (sym step))
              all,
        ),
        ap (λ (r : Out p (Unit {0})). r.1.responses) rest_
            ∙ more
            ∙ ap (λ l. l ++ rs) before
            ∙ append_assoc s.responses (reply ∷ []) rs,
      )
