-- ===== src/Prelude/Effect.antt =====
-- Exceptions and state: an asynchronous call as a function from the world that it starts in to its
-- outcome and the world that it ends in. What was done before an exception stays done.
use mathlib.Core.Path.{◌≡◌, refl}
use mathlib.Core.Logic.{◌⊎◌, inl, inr}
use native.Mathlib.Omega.{arith}
use multi_rpc.Prelude.Texts.{Text}

-- A value, or a thrown exception with its message.
pub data Result {ℓ} (A : Type ℓ) : Type ℓ where
  ok : A → Result A
  err : Text → Result A

abbrev pub Act : Type 0 → Type 0 → Type 0
Act S A = S → Result A × S

abbrev pub bind_from : {S A B : Type 0} → (A → Act S B) → Result A × S → Result B × S
bind_from f (ok a, s) = f a s
bind_from f (err e, s) = (err e, s)

abbrev pub catch_from : {S A : Type 0} → (Text → Act S A) → Result A × S → Result A × S
catch_from h (ok a, s) = (ok a, s)
catch_from h (err e, s) = h e s

infixl 5 ◌>>=◌ ◌>>◌
abbrev pub ◌>>=◌ : {S A B : Type 0} → Act S A → (A → Act S B) → Act S B
◌>>=◌ m f s = bind_from f (m s)

abbrev pub ◌>>◌ : {S A B : Type 0} → Act S A → Act S B → Act S B
◌>>◌ m k = m >>= λ _. k

abbrev pub return : {S A : Type 0} → A → Act S A
return a s = (ok a, s)

abbrev pub throw : {S A : Type 0} → Text → Act S A
throw e s = (err e, s)

-- `try { m } catch (e) { h(e) }`
abbrev pub try_catch : {S A : Type 0} → Act S A → (Text → Act S A) → Act S A
try_catch m h s = catch_from h (m s)

-- What a bind that succeeds went through.
pub bind-inv :
    {S A B : Type 0} (f : A → Act S B) (r : Result A × S) (b : B)
    → (bind_from f r).0 ≡ ok b
    → (a : A) × (s : S) × (r ≡ (ok a, s)) × (bind_from f r ≡ f a s)
bind-inv f (ok a, s) b h = (a, s, refl, refl)
bind-inv f (err e, s) b h = cc h

-- What a `try` that succeeds went through.
pub catch-inv :
    {S A : Type 0} (h : Text → Act S A) (r : Result A × S) (a : A)
    → (catch_from h r).0 ≡ ok a
    → (r.0 ≡ ok a) ⊎ ((e : Text) × (s : S) × (r ≡ (err e, s)) × ((h e s).0 ≡ ok a))
catch-inv h (ok a', s) a e = inl e
catch-inv h (err e', s) a e = inr (e', s, refl, e)

-- `try { … } catch { return d; }` does not throw.
pub catch-ok :
    {S A : Type 0} (d : A) (r : Result A × S) → (a : A) × ((catch_from (λ e. return d) r).0 ≡ ok a)
catch-ok d (ok a, s) = (a, refl)
catch-ok d (err e, s) = (d, refl)

pub catch-of_ok :
    {S A : Type 0} (h : Text → Act S A) (r : Result A × S) (a : A) → r.0 ≡ ok a → catch_from h r ≡ r
catch-of_ok h (ok a', s) a e = refl
catch-of_ok h (err e', s) a e = cc e

-- What holds after a bind that succeeds, if it does after each way through it.
pub bind-after :
    {S A B : Type 0} (P : B → S → Type 0) (f : A → Act S B) (r : Result A × S)
    → ((a : A) (s : S) → r ≡ (ok a, s) → (b : B) → (f a s).0 ≡ ok b → P b (f a s).1)
    → (b : B) → (bind_from f r).0 ≡ ok b
    → P b (bind_from f r).1
bind-after P f (ok a, s) k b h = k a s refl b h
bind-after P f (err e, s) k b h = cc h

-- The same for a `try`.
pub catch-after :
    {S A : Type 0} (P : A → S → Type 0) (h : Text → Act S A) (r : Result A × S)
    → ((a : A) → r.0 ≡ ok a → P a r.1)
    → ((e : Text) (s : S) (a : A) → (h e s).0 ≡ ok a → P a (h e s).1)
    → (a : A) → (catch_from h r).0 ≡ ok a
    → P a (catch_from h r).1
catch-after P h (ok a', s) k l a e = k a e
catch-after P h (err e', s) k l a e = l e' s a e

pub bind-of_ok :
    {S A B : Type 0} (f : A → Act S B) (r : Result A × S) (a : A)
    → r.0 ≡ ok a
    → bind_from f r ≡ f a r.1
bind-of_ok f (ok a', s) a h = let same : a' ≡ a = ground arith in rw same refl
bind-of_ok f (err e, s) a h = cc h
