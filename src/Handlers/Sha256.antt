-- ===== src/Handlers/Sha256.antt =====
-- `sha256.Sum256` of crypto/sha256, by which the order book names an order.
use Prim.Native.Nat.{bit_and, bit_xor}
use garden_evm_watcher.Common.{
  ℕ, zero, suc, ◌+◌, ◌-◌, ◌*◌, ◌/◌, ◌%◌, ◌^◌, ◌≡◌, refl, Bytes, ascii, List, [], ◌∷◌, ◌++◌, length,
  take, drop, replicate,
}

abbrev word_mod : ℕ
word_mod = 2 ^ 32

rotate_right : ℕ → ℕ → ℕ
rotate_right x k = x / 2 ^ k + (x % 2 ^ k) * 2 ^ (32 - k)

shift_right : ℕ → ℕ → ℕ
shift_right x k = x / 2 ^ k

xor3 : ℕ → ℕ → ℕ → ℕ
xor3 a b c = bit_xor (bit_xor a b) c

-- The eight words of the running hash.
record Words : Type 0 where
  a : ℕ
  b : ℕ
  c : ℕ
  d : ℕ
  e : ℕ
  f : ℕ
  g : ℕ
  h : ℕ

initial : Words
initial = record {
  a = 0x6a09e667;
  b = 0xbb67ae85;
  c = 0x3c6ef372;
  d = 0xa54ff53a;
  e = 0x510e527f;
  f = 0x9b05688c;
  g = 0x1f83d9ab;
  h = 0x5be0cd19;
}

round_constants : List ℕ
round_constants =
    0x428a2f98 ∷ 0x71374491 ∷ 0xb5c0fbcf ∷ 0xe9b5dba5 ∷ 0x3956c25b ∷ 0x59f111f1 ∷ 0x923f82a4
    ∷ 0xab1c5ed5 ∷ 0xd807aa98 ∷ 0x12835b01 ∷ 0x243185be ∷ 0x550c7dc3 ∷ 0x72be5d74 ∷ 0x80deb1fe
    ∷ 0x9bdc06a7 ∷ 0xc19bf174 ∷ 0xe49b69c1 ∷ 0xefbe4786 ∷ 0x0fc19dc6 ∷ 0x240ca1cc ∷ 0x2de92c6f
    ∷ 0x4a7484aa ∷ 0x5cb0a9dc ∷ 0x76f988da ∷ 0x983e5152 ∷ 0xa831c66d ∷ 0xb00327c8 ∷ 0xbf597fc7
    ∷ 0xc6e00bf3 ∷ 0xd5a79147 ∷ 0x06ca6351 ∷ 0x14292967 ∷ 0x27b70a85 ∷ 0x2e1b2138 ∷ 0x4d2c6dfc
    ∷ 0x53380d13 ∷ 0x650a7354 ∷ 0x766a0abb ∷ 0x81c2c92e ∷ 0x92722c85 ∷ 0xa2bfe8a1 ∷ 0xa81a664b
    ∷ 0xc24b8b70 ∷ 0xc76c51a3 ∷ 0xd192e819 ∷ 0xd6990624 ∷ 0xf40e3585 ∷ 0x106aa070 ∷ 0x19a4c116
    ∷ 0x1e376c08 ∷ 0x2748774c ∷ 0x34b0bcb5 ∷ 0x391c0cb3 ∷ 0x4ed8aa4a ∷ 0x5b9cca4f ∷ 0x682e6ff3
    ∷ 0x748f82ee ∷ 0x78a5636f ∷ 0x84c87814 ∷ 0x8cc70208 ∷ 0x90befffa ∷ 0xa4506ceb ∷ 0xbef9a3f7
    ∷ 0xc67178f2 ∷ []

-- The window holds the next sixteen words of the message schedule.
next_window : List ℕ → List ℕ
unfolding rotate_right shift_right xor3
next_window
      (w0 ∷ w1 ∷ w2 ∷ w3 ∷ w4 ∷ w5 ∷ w6 ∷ w7 ∷ w8 ∷ w9 ∷ w10 ∷ w11 ∷ w12 ∷ w13 ∷ w14 ∷ w15 ∷ []) =
    let s0 = xor3 (rotate_right w1 7) (rotate_right w1 18) (shift_right w1 3) in
    let s1 = xor3 (rotate_right w14 17) (rotate_right w14 19) (shift_right w14 10) in
    w1
    ∷ w2
    ∷ w3
    ∷ w4
    ∷ w5
    ∷ w6
    ∷ w7
    ∷ w8
    ∷ w9
    ∷ w10
    ∷ w11
    ∷ w12
    ∷ w13
    ∷ w14
    ∷ w15
    ∷ ((w0 + s0 + w9 + s1) % word_mod)
    ∷ []
next_window ws = ws

head_or_zero : List ℕ → ℕ
head_or_zero [] = 0
head_or_zero (w ∷ ws) = w

step : ℕ → ℕ → Words → Words
unfolding rotate_right xor3
step k w s =
    let s1 = xor3 (rotate_right s.e 6) (rotate_right s.e 11) (rotate_right s.e 25) in
    let ch = bit_xor (bit_and s.e s.f) (bit_and (word_mod - 1 - s.e) s.g) in
    let t1 = s.h + s1 + ch + k + w in
    let s0 = xor3 (rotate_right s.a 2) (rotate_right s.a 13) (rotate_right s.a 22) in
    let maj = xor3 (bit_and s.a s.b) (bit_and s.a s.c) (bit_and s.b s.c) in
    record {
      a = (t1 + s0 + maj) % word_mod;
      b = s.a;
      c = s.b;
      d = s.c;
      e = (s.d + t1) % word_mod;
      f = s.e;
      g = s.f;
      h = s.g;
    }

rounds : List ℕ → List ℕ → Words → Words
unfolding step next_window head_or_zero
rounds [] window s = s
rounds (k ∷ ks) window s = rounds ks (next_window window) (step k (head_or_zero window) s)

to_words : Bytes → List ℕ
to_words (p ∷ q ∷ r ∷ s ∷ bytes) = (p * 2 ^ 24 + q * 2 ^ 16 + r * 2 ^ 8 + s) ∷ to_words bytes
to_words _ = []

block : Bytes → Words → Words
unfolding rounds to_words round_constants
block bytes s =
    let r = rounds round_constants (to_words bytes) s in
    record {
      a = (s.a + r.a) % word_mod;
      b = (s.b + r.b) % word_mod;
      c = (s.c + r.c) % word_mod;
      d = (s.d + r.d) % word_mod;
      e = (s.e + r.e) % word_mod;
      f = (s.f + r.f) % word_mod;
      g = (s.g + r.g) % word_mod;
      h = (s.h + r.h) % word_mod;
    }

-- `n` blocks of 64 bytes
blocks : ℕ → Bytes → Words → Words
unfolding block
blocks zero bytes s = s
blocks (suc n) bytes s = blocks n (drop 64 bytes) (block (take 64 bytes) s)

-- the low `n` bytes of `x`, most significant first
big_endian : ℕ → ℕ → Bytes
big_endian zero x = []
big_endian (suc n) x = (x / 2 ^ (8 * n) % 256) ∷ big_endian n x

pad : Bytes → Bytes
unfolding big_endian
pad bytes =
    bytes ++ 0x80 ∷ replicate ((119 - length bytes % 64) % 64) 0 ++ big_endian 8 (8 * length bytes)

unfoldable pub sum256 : Bytes → Bytes
unfolding pad blocks big_endian initial
sum256 bytes =
    let s = blocks (length (pad bytes) / 64) (pad bytes) initial in
    big_endian 4 s.a
    ++ big_endian 4 s.b
    ++ big_endian 4 s.c
    ++ big_endian 4 s.d
    ++ big_endian 4 s.e
    ++ big_endian 4 s.f
    ++ big_endian 4 s.g
    ++ big_endian 4 s.h

-- The example of FIPS 180.
sum256_abc :
    sum256 (ascii "abc")
    ≡ 0xba ∷ 0x78 ∷ 0x16 ∷ 0xbf ∷ 0x8f ∷ 0x01 ∷ 0xcf ∷ 0xea ∷ 0x41 ∷ 0x41 ∷ 0x40 ∷ 0xde ∷ 0x5d
      ∷ 0xae ∷ 0x22 ∷ 0x23 ∷ 0xb0 ∷ 0x03 ∷ 0x61 ∷ 0xa3 ∷ 0x96 ∷ 0x17 ∷ 0x7a ∷ 0x9c ∷ 0xb4 ∷ 0x10
      ∷ 0xff ∷ 0x61 ∷ 0xf2 ∷ 0x00 ∷ 0x15 ∷ 0xad ∷ []
unfolding sum256
sum256_abc = refl

pub length-sum256 : (bytes : Bytes) → length (sum256 bytes) ≡ 32
unfolding sum256
length-sum256 bytes = refl
