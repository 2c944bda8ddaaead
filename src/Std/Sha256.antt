-- ===== src/Std/Sha256.antt =====
-- Go's crypto/sha256: Sum256, as FIPS 180-4 defines it, on lists of bytes.
use blockade.Prelude.{
  length, Bytes, IsBytes, bytes, ℕ, zero, suc, ◌+◌, ◌-◌, ◌*◌, ◌/◌, ◌%◌, ◌^◌, ◌≡◌, refl, List, [],
  ◌∷◌, ◌++◌, arith,
}
use Prim.Native.Nat.{bit_and, bit_xor}
use blockade.Std.Strings.{drop}
use blockade.Std.Hex.{encode}

abbrev word : ℕ
word = 2 ^ 32

-- Rotation to the right of a 32-bit word.
abbrev rotr : ℕ → ℕ → ℕ
rotr x k = (x / 2 ^ k + x * 2 ^ (32 - k)) % word

big_sigma0 : ℕ → ℕ
big_sigma0 x = bit_xor (rotr x 2) (bit_xor (rotr x 13) (rotr x 22))

big_sigma1 : ℕ → ℕ
big_sigma1 x = bit_xor (rotr x 6) (bit_xor (rotr x 11) (rotr x 25))

small_sigma0 : ℕ → ℕ
small_sigma0 x = bit_xor (rotr x 7) (bit_xor (rotr x 18) (x / 2 ^ 3))

small_sigma1 : ℕ → ℕ
small_sigma1 x = bit_xor (rotr x 17) (bit_xor (rotr x 19) (x / 2 ^ 10))

choose : ℕ → ℕ → ℕ → ℕ
choose e f g = bit_xor (bit_and e f) (bit_and (word - 1 - e) g)

majority : ℕ → ℕ → ℕ → ℕ
majority a b c = bit_xor (bit_and a b) (bit_xor (bit_and a c) (bit_and b c))

record Hash : Type 0 where
  a : ℕ
  b : ℕ
  c : ℕ
  d : ℕ
  e : ℕ
  f : ℕ
  g : ℕ
  h : ℕ

abbrev init : Hash
init = record {
  a = 0x6a09e667;
  b = 0xbb67ae85;
  c = 0x3c6ef372;
  d = 0xa54ff53a;
  e = 0x510e527f;
  f = 0x9b05688c;
  g = 0x1f83d9ab;
  h = 0x5be0cd19;
}

abbrev round_constants : List ℕ
round_constants =
    0x428a2f98 ∷ 0x71374491 ∷ 0xb5c0fbcf ∷ 0xe9b5dba5 ∷ 0x3956c25b ∷ 0x59f111f1 ∷ 0x923f82a4
    ∷ 0xab1c5ed5 ∷ 0xd807aa98 ∷ 0x12835b01 ∷ 0x243185be ∷ 0x550c7dc3 ∷ 0x72be5d74 ∷ 0x80deb1fe
    ∷ 0x9bdc06a7 ∷ 0xc19bf174 ∷ 0xe49b69c1 ∷ 0xefbe4786 ∷ 0x0fc19dc6 ∷ 0x240ca1cc ∷ 0x2de92c6f
    ∷ 0x4a7484aa ∷ 0x5cb0a9dc ∷ 0x76f988da ∷ 0x983e5152 ∷ 0xa831c66d ∷ 0xb00327c8 ∷ 0xbf597fc7
    ∷ 0xc6e00bf3 ∷ 0xd5a79147 ∷ 0x06ca6351 ∷ 0x14292967 ∷ 0x27b70a85 ∷ 0x2e1b2138 ∷ 0x4d2c6dfc
    ∷ 0x53380d13 ∷ 0x650a7354 ∷ 0x766a0abb ∷ 0x81c2c92e ∷ 0x92722c85 ∷ 0xa2bfe8a1 ∷ 0xa81a664b
    ∷ 0xc24b8b70 ∷ 0xc76c51a3 ∷ 0xd192e819 ∷ 0xd6990624 ∷ 0xf40e3585 ∷ 0x106aa070 ∷ 0x19a4c116
    ∷ 0x1e376c08 ∷ 0x2748774c ∷ 0x34b0bcb5 ∷ 0x391c0cb3 ∷ 0x4ed8aa4a ∷ 0x5b9cca4f ∷ 0x682e6ff3
    ∷ 0x748f82ee ∷ 0x78a5636f ∷ 0x84c87814 ∷ 0x8cc70208 ∷ 0x90befffa ∷ 0xa4506ceb ∷ 0xbef9a3f7
    ∷ 0xc67178f2 ∷ []

round : ℕ → ℕ → Hash → Hash
unfolding big_sigma0 big_sigma1 choose majority
round k w s =
    let t1 = (s.h + big_sigma1 s.e + choose s.e s.f s.g + k + w) % word in
    let t2 = (big_sigma0 s.a + majority s.a s.b s.c) % word in
    record {
      a = (t1 + t2) % word;
      b = s.a;
      c = s.b;
      d = s.c;
      e = (s.d + t1) % word;
      f = s.e;
      g = s.f;
      h = s.g;
    }

at : ℕ → List ℕ → ℕ
at n [] = 0
at zero (x ∷ xs) = x
at (suc n) (x ∷ xs) = at n xs

-- The next word of the message schedule, from the last sixteen.
next_word : List ℕ → ℕ
unfolding small_sigma0 small_sigma1 at
next_word window =
    (small_sigma1 (at 14 window) + at 9 window + small_sigma0 (at 1 window) + at 0 window) % word

-- `window` is the message schedule from the current round on, sixteen words of it.
rounds : List ℕ → List ℕ → Hash → Hash
unfolding round next_word drop
rounds [] window s = s
rounds (k ∷ ks) window s =
    rounds ks (drop 1 window ++ next_word window ∷ []) (round k (at 0 window) s)

add : Hash → Hash → Hash
add s t = record {
  a = (s.a + t.a) % word;
  b = (s.b + t.b) % word;
  c = (s.c + t.c) % word;
  d = (s.d + t.d) % word;
  e = (s.e + t.e) % word;
  f = (s.f + t.f) % word;
  g = (s.g + t.g) % word;
  h = (s.h + t.h) % word;
}

-- Four bytes to a word, the first the highest.
words : ℕ → Bytes → List ℕ
unfolding at drop
words zero bs = []
words (suc n) bs =
    (at 0 bs * 2 ^ 24 + at 1 bs * 2 ^ 16 + at 2 bs * 2 ^ 8 + at 3 bs) ∷ words n (drop 4 bs)

blocks : ℕ → Bytes → Hash → Hash
unfolding words add rounds
blocks zero bs s = s
blocks (suc n) bs s = blocks n (drop 64 bs) (add s (rounds round_constants (words 16 bs) s))

be32 : ℕ → Bytes
be32 x = (x / 2 ^ 24 % 256) ∷ (x / 2 ^ 16 % 256) ∷ (x / 2 ^ 8 % 256) ∷ (x % 256) ∷ []

replicate : ℕ → ℕ → Bytes
replicate zero x = []
replicate (suc n) x = x ∷ replicate n x

-- The one bit, the zeros up to 56 modulo 64, and the length in bits in eight bytes.
pad : Bytes → Bytes
unfolding replicate be32
pad bs =
    bs
    ++ ((0x80 ∷ replicate ((119 - length bs % 64) % 64) 0)
        ++ (be32 (length bs * 8 / word) ++ be32 (length bs * 8 % word)))

output : Hash → Bytes
unfolding be32
output s =
    be32 s.a ++ be32 s.b ++ be32 s.c ++ be32 s.d ++ be32 s.e ++ be32 s.f ++ be32 s.g ++ be32 s.h

unfoldable pub sum256 : Bytes → Bytes
unfolding blocks pad output
sum256 bs = let p = pad bs in output (blocks (length p / 64) p init)

-- The digest has 32 bytes.
pub length-sum256 : (bs : Bytes) → length (sum256 bs) ≡ 32
unfolding sum256
length-sum256 bs = refl

pub IsBytes-sum256 : (bs : Bytes) → IsBytes (sum256 bs)
unfolding sum256
IsBytes-sum256 bs = omega arith

abc :
    encode (sum256 (bytes "abc"))
    ≡ bytes "ba7816bf8f01cfea414140de5dae2223b00361a396177a9cb410ff61f20015ad"
unfolding sum256 encode
abc = refl

two_blocks :
    encode (sum256 (bytes "abcdbcdecdefdefgefghfghighijhijkijkljklmklmnlmnomnopnopq"))
    ≡ bytes "248d6a61d20638b8e5c026930c3e6039a33ce45964ff2167f6ecedd419db06c1"
unfolding sum256 encode
two_blocks = refl
