-- ===== src/Browser.antt =====
-- What the pages of web-ui/src/app/dashboard/ share: how a request of theirs ends, and the requests on
-- their way.
use multi_rpc.Prelude.{ℕ, zero, suc, Option, List, [], ◌∷◌, Text}

-- How a request ends: the token, the fetch or the body threw, the answer was not `ok`, or it was.
pub data Outcome (A : Type 0) : Type 0 where
  lost : Outcome A
  refused : (error : Option Text) → Outcome A
  answered : A → Outcome A

-- the requests that are left when one is answered
abbrev pub without_at {ℓ} : {A : Type ℓ} → ℕ → List A → List A
without_at i [] = []
without_at zero (x ∷ xs) = xs
without_at (suc i) (x ∷ xs) = x ∷ without_at i xs
