-- ===== src/Prelude/Decimal.antt =====
-- Numbers in a template string: decimal digits, and the proof that they determine the number.
use Prim.Native.Nat.{ℕ, zero, suc, ◌+◌, ◌-◌, ◌*◌, ◌/◌, ◌%◌, ◌<◌}
use mathlib.Core.Path.{◌≡◌, refl, sym, ap, ◌∙◌}
use mathlib.Core.Logic.{◌≢◌}
use mathlib.Core.List.{[], ◌∷◌, ◌++◌}
use native.Mathlib.Omega.{arith}
use multi_rpc.Prelude.Tests.{ltb, if◌then◌else◌}
use multi_rpc.Prelude.Lists.{All, All-append}
use multi_rpc.Prelude.Texts.{Text}

digits : ℕ → ℕ → Text
digits zero n = []
digits (suc fuel) n =
    let more = digits fuel (n / 10) ++ ((b'0' + n % 10) ∷ []) in
    if ltb n 10 then (b'0' + n) ∷ [] else more

-- `n.toString()`; a number has fewer digits than its value plus one.
unfoldable pub to_decimal : ℕ → Text
unfolding digits
to_decimal n = digits (suc n) n

value : ℕ → Text → ℕ
value acc [] = acc
value acc (c ∷ s) = value (acc * 10 + (c - b'0')) s

value-append :
    (acc : ℕ) (s : Text) (c : ℕ) → value acc (s ++ c ∷ []) ≡ value acc s * 10 + (c - b'0')
unfolding value
value-append acc [] c = refl
value-append acc (d ∷ s) c = value-append (acc * 10 + (d - b'0')) s c

value-digits : (fuel n : ℕ) → n < fuel → value 0 (digits fuel n) ≡ n
unfolding digits value
value-digits zero n h = elim h [ ]
value-digits (suc fuel) n h =
    ground
      (arith, value-append 0 (digits fuel (n / 10)) (b'0' + n % 10), value-digits fuel (n / 10))

pub to_decimal-injective : (m n : ℕ) → to_decimal m ≡ to_decimal n → m ≡ n
unfolding to_decimal
to_decimal-injective m n e =
    sym (value-digits (suc m) m (omega arith))
    ∙ ap (value 0) e
    ∙ value-digits (suc n) n (omega arith)

abbrev pub NoColon : Text → Type 0
NoColon s = All (λ c. c ≢ b':') s

digits-NoColon : (fuel n : ℕ) → NoColon (digits fuel n)
unfolding digits
digits-NoColon zero n = tt
digits-NoColon (suc fuel) n =
    let rest =
      All-append (λ c. c ≢ b':') (digits fuel (n / 10)) ((b'0' + n % 10) ∷ [])
        (digits-NoColon fuel (n / 10)) (omega arith, tt) in
    ground arith

pub to_decimal-NoColon : (n : ℕ) → NoColon (to_decimal n)
unfolding to_decimal
to_decimal-NoColon n = digits-NoColon (suc n) n

NoColon-colon : (s t : Text) → NoColon (s ++ b':' ∷ t) → ⊥
NoColon-colon [] t h = h.0 refl
NoColon-colon (c ∷ s) t h = NoColon-colon s t h.1

-- What stands before and after the last colon is determined.
pub last_colon :
    (s s' t t' : Text)
    → NoColon t
    → NoColon t'
    → s ++ b':' ∷ t ≡ s' ++ b':' ∷ t'
    → (s ≡ s') × (t ≡ t')
last_colon [] [] t t' h h' e = ground arith
last_colon [] (d ∷ s') t t' h h' e =
    absurd (NoColon-colon s' t' (let q : t ≡ s' ++ b':' ∷ t' = cc in rw q at h))
last_colon (c ∷ s) [] t t' h h' e =
    absurd (NoColon-colon s t (let q : t' ≡ s ++ b':' ∷ t = cc in rw q at h'))
last_colon (c ∷ s) (d ∷ s') t t' h h' e = ground (arith, last_colon s s' t t' h h')
