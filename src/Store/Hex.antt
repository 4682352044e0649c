-- ===== src/Store/Hex.antt =====
-- proxy/internal/logger/compact.go: `hashHex` and `hexHash`, which show a hash as text.
use lazy_vllm.Prelude.{
  ℕ, ◌+◌, ◌-◌, ◌*◌, ◌/◌, ◌%◌, ◌<◌, ◌≡◌, refl, Option, none, some, List, [], ◌∷◌, All, ltb, leb,
  ◌&&◌, arith, if◌then◌else◌,
}

unfoldable pub digit : ℕ → ℕ
digit n = if ltb n 10 then n + 48 else n + 87

-- `hex.EncodeToString`.
unfoldable pub hash_hex : List ℕ → List ℕ
unfolding digit
hash_hex [] = []
hash_hex (b ∷ bs) = digit (b / 16) ∷ digit (b % 16) ∷ hash_hex bs

-- The value of a digit, in either case.
unfoldable pub value : ℕ → Option ℕ
value c =
    if leb b'0' c && leb c b'9'
    then some (c - 48)
    else if leb b'a' c && leb c b'f'
    then some (c - 87)
    else if leb b'A' c && leb c b'F'
    then some (c - 55)
    else none

abbrev byte_of : Option ℕ → Option ℕ → Option ℕ
byte_of (some h) (some l) = some (h * 16 + l)
byte_of _ _ = none

abbrev cons_if : Option ℕ → List ℕ → List ℕ
cons_if none rest = []
cons_if (some b) rest = b ∷ rest

-- `hex.DecodeString` with its error dropped: the bytes before the first bad digit.
unfoldable pub hex_hash : List ℕ → List ℕ
unfolding value
hex_hash [] = []
hex_hash (h ∷ []) = []
hex_hash (h ∷ l ∷ rest) = cons_if (byte_of (value h) (value l)) (hex_hash rest)

value-digit : (n : ℕ) → n < 16 → value (digit n) ≡ some n
unfolding value digit
value-digit n h = ground arith

-- The text of a hash stands for the hash.
pub hex_hash-hash_hex : (bs : List ℕ) → All (λ b. b < 256) bs → hex_hash (hash_hex bs) ≡ bs
unfolding hex_hash hash_hex
hex_hash-hash_hex [] h = refl
hex_hash-hash_hex (b ∷ bs) (h, hs) =
    ground (arith, value-digit (b / 16), value-digit (b % 16), hex_hash-hash_hex bs hs)
