-- ===== src/Handlers/Hex.antt =====
-- `hex.EncodeToString` of encoding/hex, by which both handler packages write IDs.
use garden_evm_watcher.Common.{
  ℕ, ◌+◌, ◌*◌, ◌/◌, ◌%◌, ◌<◌, ◌≡◌, refl, if◌then◌else◌, ltb, Bytes, ascii, [], ◌∷◌, arith, All,
  length,
}

abbrev digit : ℕ → ℕ
digit d = if ltb d 10 then b'0' + d else d + 87

unfoldable pub encode_to_string : Bytes → Bytes
encode_to_string [] = []
encode_to_string (b ∷ bs) = digit (b / 16) ∷ digit (b % 16) ∷ encode_to_string bs

abbrev pub IsBytes : Bytes → Type 0
IsBytes = All (λ b. b < 256)

digit-injective : (a b : ℕ) → digit a ≡ digit b → a ≡ b
digit-injective a b e = ground arith

pub length-encode_to_string : (bs : Bytes) → length (encode_to_string bs) ≡ 2 * length bs
unfolding encode_to_string
length-encode_to_string [] = refl
length-encode_to_string (b ∷ bs) = omega (arith, length-encode_to_string bs)

encode_some : encode_to_string (0 ∷ 171 ∷ 255 ∷ []) ≡ ascii "00abff"
unfolding encode_to_string
encode_some = refl

-- Two different byte strings have different hexadecimal texts.
pub encode_to_string-injective :
    (xs ys : Bytes) → encode_to_string xs ≡ encode_to_string ys → xs ≡ ys
unfolding encode_to_string
encode_to_string-injective [] [] e = refl
encode_to_string-injective [] (y ∷ ys) e = cc
encode_to_string-injective (x ∷ xs) [] e = cc
encode_to_string-injective (x ∷ xs) (y ∷ ys) e = ground (
  arith,
  digit-injective (x / 16) (y / 16),
  digit-injective (x % 16) (y % 16),
  encode_to_string-injective xs ys,
)
