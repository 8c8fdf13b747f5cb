-- ===== src/Json/Text.antt =====
-- The text of a JSON string: Go takes it as UTF-8, and a string of it has U+FFFD for each byte that
-- is none and for each half of a surrogate pair.
use garden_evm_watcher.Common.{
  ℕ, zero, suc, ◌+◌, ◌-◌, ◌*◌, ◌/◌, ◌%◌, Bool, ◌&&◌, if◌then◌else◌, ltb, leb, eqb, Bytes, List, [],
  ◌∷◌, ◌++◌, Option, none, some,
}

-- A byte of the text, or an escape: a code unit of UTF-16.
pub data Piece : Type 0 where
  raw : ℕ → Piece
  unit : ℕ → Piece

-- utf8.RuneError
abbrev pub replacement : Bytes
replacement = 239 ∷ 191 ∷ 189 ∷ []

-- utf8.AppendRune
abbrev pub encode_rune : ℕ → Bytes
encode_rune r =
    if ltb r 128
    then r ∷ []
    else if ltb r 2048
    then (192 + r / 64) ∷ (128 + r % 64) ∷ []
    else if ltb r 65536
    then (224 + r / 4096) ∷ (128 + r / 64 % 64) ∷ (128 + r % 64) ∷ []
    else (240 + r / 262144) ∷ (128 + r / 4096 % 64) ∷ (128 + r / 64 % 64) ∷ (128 + r % 64) ∷ []

abbrev pub within : ℕ → ℕ → ℕ → Bool
within low high b = leb low b && leb b high

-- The range of the second byte, by the first one of three, and of four.
abbrev second_of_three : ℕ → ℕ → Bool
second_of_three b c = within (if eqb b 224 then 160 else 128) (if eqb b 237 then 159 else 191) c

abbrev second_of_four : ℕ → ℕ → Bool
second_of_four b c = within (if eqb b 240 then 144 else 128) (if eqb b 244 then 143 else 191) c

-- How many bytes of the rune that begins with `b`, 128 or more, follow it; none if it is not one.
unfoldable pub rune_tail : ℕ → List Piece → Option ℕ
rune_tail b (raw c ∷ raw d ∷ raw e ∷ pieces) =
    if within 194 223 b && within 128 191 c
    then some 1
    else if within 224 239 b && (second_of_three b c && within 128 191 d)
    then some 2
    else if within 240 244 b && (second_of_four b c && (within 128 191 d && within 128 191 e))
    then some 3
    else none
rune_tail b (raw c ∷ raw d ∷ pieces) =
    if within 194 223 b && within 128 191 c
    then some 1
    else if within 224 239 b && (second_of_three b c && within 128 191 d)
    then some 2
    else none
rune_tail b (raw c ∷ pieces) = if within 194 223 b && within 128 191 c then some 1 else none
rune_tail b _ = none

-- The second half of a surrogate pair, if it comes next.
abbrev low_half : List Piece → Option ℕ
low_half (unit u ∷ pieces) = if within 56320 57343 u then some u else none
low_half _ = none

-- What the pieces before leave to do: to copy bytes of a rune, or to leave out a half.
pub data Pending : Type 0 where
  copies : ℕ → Pending
  leaves_out : Pending

abbrev of_tail : ℕ → Option ℕ → Bytes × Pending
of_tail b none = (replacement, copies 0)
of_tail b (some n) = (b ∷ [], copies n)

abbrev of_half : ℕ → Option ℕ → Bytes × Pending
of_half u none = (replacement, copies 0)
of_half u (some v) = (encode_rune ((u - 55296) * 1024 + (v - 56320) + 65536), leaves_out)

unfoldable pub unquote_step : Pending → Piece → List Piece → Bytes × Pending
unfolding rune_tail
unquote_step leaves_out p pieces = ([], copies 0)
unquote_step (copies (suc n)) (raw b) pieces = (b ∷ [], copies n)
unquote_step (copies (suc n)) (unit u) pieces = ([], copies 0)
unquote_step (copies zero) (raw b) pieces =
    if ltb b 128 then (b ∷ [], copies 0) else of_tail b (rune_tail b pieces)
unquote_step (copies zero) (unit u) pieces =
    if within 55296 56319 u
    then of_half u (low_half pieces)
    else if within 56320 57343 u
    then (replacement, copies 0)
    else (encode_rune u, copies 0)

unfoldable pub unquote_from : Pending → List Piece → Bytes
unquote_from pending [] = []
unquote_from pending (p ∷ pieces) =
    let (bytes, next) = unquote_step pending p pieces in bytes ++ unquote_from next pieces

unfoldable pub unquote : List Piece → Bytes
unfolding unquote_from
unquote pieces = unquote_from (copies 0) pieces
