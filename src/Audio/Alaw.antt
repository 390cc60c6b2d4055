-- ===== src/Audio/Alaw.antt =====
-- backend/app/audio/alaw.py: the G.711 A-law codec. A sample is an integer; `-t` of the decoder is
-- never of 0, so sign and magnitude stand for it.
pub mod Codec
use tactical_core.Base.{
  ℕ, zero, suc, ◌+◌, ◌-◌, ◌*◌, ◌/◌, ◌%◌, ◌^◌, min, Bool, true, false, Option, none, some, List, [],
  ◌∷◌, ◌++◌, ltb, leb, ◌==◌, if◌then◌else◌,
}
use Prim.Native.Nat.{bit_xor}
use tactical_core.Audio.Bytes.{Bytes}

-- `negsuc n` is -(n + 1)
pub data ℤ : Type 0 where
  pos : ℕ → ℤ
  negsuc : ℕ → ℤ

abbrev pub alaw_xor_mask : ℕ
alaw_xor_mask = 0x55

-- `-n`
abbrev pub neg : ℕ → ℤ
neg zero = pos 0
neg (suc n) = negsuc n

-- the magnitude `t` for the masked byte
unfoldable pub expand : ℕ → ℕ
expand a =
    let segment = a / 16 % 8 in
    let t = a % 16 * 16 in
    if segment == 0
    then t + 8
    else if segment == 1
    then t + 0x108
    else (t + 0x108) * 2 ^ (segment - 1)

unfoldable pub alaw_decode_byte : ℕ → ℤ
unfolding expand
alaw_decode_byte value =
    let a = bit_xor value alaw_xor_mask in
    if a / 128 % 2 == 1 then pos (expand a) else neg (expand a)

-- `while sample > 511: sample >>= 1; segment += 1`, on fuel: six rounds are enough for 15 bits
unfoldable pub compress : ℕ → ℕ → ℕ → ℕ × ℕ
compress zero sample segment = (sample, segment)
compress (suc fuel) sample segment =
    let rest = compress fuel (sample / 2) (segment + 1) in
    if ltb 511 sample then rest else (sample, segment)

abbrev pub magnitude : ℤ → ℕ
magnitude (pos n) = n
magnitude (negsuc n) = n + 1

abbrev pub is_non_negative : ℤ → Bool
is_non_negative (pos n) = true
is_non_negative (negsuc n) = false

-- the seven bits below the sign
unfoldable pub quantize : ℕ → ℕ
unfolding compress
quantize sample =
    if ltb sample 256
    then sample / 16
    else (let (reduced, segment) = compress 6 sample 0 in reduced / 16 % 16 + (segment + 1) * 16)

unfoldable pub alaw_encode_byte : ℤ → ℕ
unfolding quantize
alaw_encode_byte sample =
    let code = quantize (min (magnitude sample) 0x7FFF) in
    bit_xor (if is_non_negative sample then code + 128 else code) alaw_xor_mask

-- `struct.pack("<h", sample)`: two's complement, low byte first
abbrev pub pack_sample : ℤ → Bytes
pack_sample (pos n) = n % 256 ∷ n / 256 % 256 ∷ []
pack_sample (negsuc n) = let w = 65535 - n in w % 256 ∷ w / 256 % 256 ∷ []

-- `struct.unpack("<h", ...)`
abbrev pub unpack_sample : ℕ → ℕ → ℤ
unpack_sample lo hi = let w = lo + hi * 256 in if ltb w 32768 then pos w else negsuc (65535 - w)

unfoldable pub alaw_to_pcm : Bytes → Bytes
unfolding alaw_decode_byte
alaw_to_pcm [] = []
alaw_to_pcm (b ∷ bytes) = pack_sample (alaw_decode_byte b) ++ alaw_to_pcm bytes

-- a last odd byte is dropped
unfoldable pub pcm_to_alaw : Bytes → Bytes
unfolding alaw_encode_byte
pcm_to_alaw (lo ∷ hi ∷ bytes) = alaw_encode_byte (unpack_sample lo hi) ∷ pcm_to_alaw bytes
pcm_to_alaw _ = []
