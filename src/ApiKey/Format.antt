-- ===== src/ApiKey/Format.antt =====
-- The format of API keys: what `isValidFormat` accepts, and that generated keys are accepted.
use multi_rpc.Prelude.{
  ℕ, ◌*◌, ◌/◌, ◌%◌, ◌<◌, ◌≡◌, refl, ◌↔◌, true, List, [], ◌∷◌, ◌++◌, Text, lit, starts_with, all,
  All, length, drop, arith, ok,
}
use multi_rpc.Platform.{Platform}
use multi_rpc.ApiKey.{
  is_hex, to_hex, hex_digit, is_valid_format, key_of_bytes, generate_key, hash_key, GeneratedKey,
  key_prefix, key_length,
}

hex_digit-is_hex : (n : ℕ) → n < 16 → is_hex (hex_digit n) ≡ true
unfolding is_hex
hex_digit-is_hex n h = ground arith

abbrev pub IsByte : ℕ → Type 0
IsByte b = b < 256

to_hex-is_hex : (bs : List ℕ) → All IsByte bs → all is_hex (to_hex bs) ≡ true
unfolding to_hex
to_hex-is_hex [] h = refl
to_hex-is_hex (b ∷ bs) h = ground (
  arith,
  hex_digit-is_hex (b / 16) (omega arith),
  hex_digit-is_hex (b % 16) (omega arith),
  to_hex-is_hex bs h.1,
)

length-to_hex : (bs : List ℕ) → length (to_hex bs) ≡ 2 * length bs
unfolding to_hex
length-to_hex [] = refl
length-to_hex (b ∷ bs) = omega (arith, length-to_hex bs)

starts_with-drop : (s p : Text) → starts_with s p ≡ true → s ≡ p ++ drop (length p) s
unfolding starts_with
starts_with-drop s [] h = refl
starts_with-drop [] (d ∷ p) h = cc
starts_with-drop (c ∷ s) (d ∷ p) h = ground (arith, starts_with-drop s p)

-- `isValidFormat` accepts exactly the texts that are `mrpc_` and 64 hexadecimal digits in lower case.
pub is_valid_format_iff :
    (key : Text)
    → (is_valid_format key ≡ true) ↔ (
        (rest : Text) × (key ≡ lit "mrpc_" ++ rest) × (length rest ≡ 64) × (all is_hex rest ≡ true))
unfolding is_valid_format starts_with
is_valid_format_iff key = (
  λ h. (
    drop 5 key,
    ground (arith, starts_with-drop key (key_prefix ++ lit "_")),
    ground arith,
    ground arith,
  ),
  λ (rest, e, l, a). rw e (ground arith),
)

pub key_of_bytes-is_valid_format :
    (p : Platform) (bytes : List ℕ)
    → All IsByte bytes
    → length bytes ≡ key_length
    → is_valid_format (key_of_bytes p bytes).key ≡ true
unfolding is_valid_format key_of_bytes starts_with
key_of_bytes-is_valid_format p bytes h n =
    ground (arith, to_hex-is_hex bytes h, length-to_hex bytes)

-- A generated key has the format that `verify` asks for, if the source of random bytes gives as many
-- bytes as it is asked for, and is handed out with its hash.
pub generate_key-is_valid_format :
    (p : Platform) (w : p.World)
    → All IsByte (p.random_bytes key_length w).0
    → length (p.random_bytes key_length w).0 ≡ key_length
    → (g : GeneratedKey) × ((generate_key p w).0 ≡ ok g)
      × (is_valid_format g.key ≡ true)
      × (g.hashed_key ≡ p.sha256_hex g.key)
unfolding key_of_bytes generate_key hash_key
generate_key-is_valid_format p w h n = (
  key_of_bytes p (p.random_bytes key_length w).0,
  refl,
  key_of_bytes-is_valid_format p (p.random_bytes key_length w).0 h n,
  refl,
)
