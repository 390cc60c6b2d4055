-- ===== src/Audio/Bytes.antt =====
-- Bytes as numbers below 256, and the big-endian fields that `struct` packs and unpacks.
use tactical_core.Base.{ℕ, zero, suc, ◌+◌, ◌*◌, ◌/◌, ◌%◌, ◌<◌, List, [], ◌∷◌, All}

abbrev pub Bytes : Type 0
Bytes = List ℕ

abbrev pub IsBytes : Bytes → Type 0
IsBytes = All (λ b. b < 256)

-- `data[i]`, inside the datagram
abbrev pub byte_at : Bytes → ℕ → ℕ
byte_at [] i = 0
byte_at (b ∷ bs) zero = b
byte_at (b ∷ bs) (suc i) = byte_at bs i

-- `struct.unpack_from(">H", data, i)`
abbrev pub be16_at : Bytes → ℕ → ℕ
be16_at bytes i = byte_at bytes i * 256 + byte_at bytes (i + 1)

-- `struct.unpack_from(">I", data, i)`
abbrev pub be32_at : Bytes → ℕ → ℕ
be32_at bytes i =
    byte_at bytes i * 16777216
    + byte_at bytes (i + 1) * 65536
    + byte_at bytes (i + 2) * 256
    + byte_at bytes (i + 3)

-- `struct.unpack_from(f">{n}I", data, i)`
unfoldable pub words_at : Bytes → ℕ → ℕ → List ℕ
words_at bytes zero i = []
words_at bytes (suc n) i = be32_at bytes i ∷ words_at bytes n (i + 4)

-- `struct.pack(">H", n)` and `struct.pack(">I", n)` of a number in range
abbrev pub be16 : ℕ → Bytes
be16 n = n / 256 % 256 ∷ n % 256 ∷ []

abbrev pub be32 : ℕ → Bytes
be32 n = n / 16777216 % 256 ∷ n / 65536 % 256 ∷ n / 256 % 256 ∷ n % 256 ∷ []
