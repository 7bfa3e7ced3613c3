-- ===== src/Limiter/Keys.antt =====
-- The cache keys of the limiter tell callers and windows apart.
use multi_rpc.Prelude.{
  ℕ, Text, ◌≡◌, arith, text_eq, text_eq_iff, to_decimal-injective, to_decimal-NoColon, last_colon,
  ◌&&◌, ◌==◌, to_decimal,
}
use multi_rpc.Limiter.{cache_key}

pub cache_key-injective : (s t : Text) (m n : ℕ) → cache_key s m ≡ cache_key t n → (s ≡ t) × (m ≡ n)
unfolding cache_key
cache_key-injective s t m n e =
    let (p, q) =
      last_colon s t (to_decimal m) (to_decimal n) (to_decimal-NoColon m) (to_decimal-NoColon n)
        e in
    (p, to_decimal-injective m n q)

-- Two checks share a counter exactly if they are of one caller and one window.
pub text_eq-cache_key :
    (s t : Text) (m n : ℕ) → text_eq (cache_key s m) (cache_key t n) ≡ (text_eq s t && m == n)
text_eq-cache_key s t m n = ground (
  arith,
  text_eq_iff (cache_key s m) (cache_key t n),
  text_eq_iff s t,
  cache_key-injective s t m n,
)
