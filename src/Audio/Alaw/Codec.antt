-- ===== src/Audio/Alaw/Codec.antt =====
-- The A-law codec of alaw.py: what survives decoding and encoding.
use tactical_core.Base.{
  Bool-cases, inl, inr, sym, ◌∙◌, ℕ, zero, suc, ◌+◌, ◌/◌, ◌<◌, ◌≤◌, min, max, ◌≡◌, refl, Bool, true,
  false, ◌&&◌, [], ◌∷◌, ◌++◌, ap, arith, ltb, ◌==◌, if◌then◌else◌, ==_iff,
}
use Prim.Native.Nat.{bit_xor}
use tactical_core.Audio.Bytes.{Bytes, IsBytes}
use tactical_core.Audio.Alaw.{
  magnitude, is_non_negative, neg, ℤ, pos, negsuc, expand, compress, quantize, alaw_decode_byte,
  alaw_encode_byte, pack_sample, alaw_to_pcm, pcm_to_alaw,
}

-- The test holds of `count` numbers from `start` on.
passes_from : (ℕ → Bool) → ℕ → ℕ → Bool
passes_from test start zero = true
passes_from test start (suc count) = test start && passes_from test (start + 1) count

passes_from-at :
    (test : ℕ → Bool) (start count b : ℕ)
    → passes_from test start count ≡ true
    → start ≤ b
    → b < start + count
    → test b ≡ true
unfolding passes_from
passes_from-at test start zero b passed low high = absurd (omega (arith, low, high))
passes_from-at test start (suc count) b passed low high = elim (Bool-cases (start == b)) [
  | inl here ↦ ap test (sym ((==_iff start b).0 here)) ∙ ground (arith, passed)
  | inr later ↦ passes_from-at test (start + 1) count b (ground arith) (ground arith) (ground arith)
]

-- the two bytes of a decoded sample, read back and encoded
abbrev recoded : ℕ → Bytes
recoded b = pcm_to_alaw (pack_sample (alaw_decode_byte b))

abbrev is_single : Bytes → ℕ → Bool
is_single (c ∷ []) b = c == b
is_single _ b = false

recode_table : passes_from (λ b. is_single (recoded b) b) 0 256 ≡ true
unfolding passes_from pcm_to_alaw alaw_decode_byte
recode_table = refl

recode : (b : ℕ) → b < 256 → recoded b ≡ b ∷ []
recode b h = single (recoded b) (
    passes_from-at (λ c. is_single (recoded c) c) 0 256 b recode_table (omega arith)
      (omega (arith, h)))
  where
    single : (cs : Bytes) → is_single cs b ≡ true → cs ≡ b ∷ []
    single [] e = cc
    single (c ∷ []) e = ground arith
    single (c ∷ d ∷ cs) e = cc

pcm_to_alaw-pack :
    (z : ℤ) (rest : Bytes)
    → pcm_to_alaw (pack_sample z ++ rest) ≡ pcm_to_alaw (pack_sample z) ++ pcm_to_alaw rest
unfolding pcm_to_alaw
pcm_to_alaw-pack (pos n) rest = refl
pcm_to_alaw-pack (negsuc n) rest = refl

alaw_to_pcm-cons :
    (b : ℕ) (bytes : Bytes)
    → alaw_to_pcm (b ∷ bytes) ≡ pack_sample (alaw_decode_byte b) ++ alaw_to_pcm bytes
unfolding alaw_to_pcm
alaw_to_pcm-cons b bytes = refl

-- Every A-law payload survives decoding to PCM and encoding.
pub pcm_to_alaw-alaw_to_pcm :
    (bytes : Bytes) → IsBytes bytes → pcm_to_alaw (alaw_to_pcm bytes) ≡ bytes
pcm_to_alaw-alaw_to_pcm [] h = unfold pcm_to_alaw alaw_to_pcm in refl
pcm_to_alaw-alaw_to_pcm (b ∷ bytes) h =
    ap pcm_to_alaw (alaw_to_pcm-cons b bytes)
    ∙ pcm_to_alaw-pack (alaw_decode_byte b) (alaw_to_pcm bytes)
    ∙ rw (recode b h.0, pcm_to_alaw-alaw_to_pcm bytes h.1)

-- a segment of samples at a time
quantize_error :
    (m : ℕ)
    → m < 32768
    → (expand (quantize m) ≤ m + max 8 (m / 32))
      × (m ≤ expand (quantize m) + max 8 (m / 32))
      × (quantize m < 128)
unfolding expand quantize
quantize_error m h = ground arith

unmask_table : passes_from (λ x. bit_xor (bit_xor x 0x55) 0x55 == x) 0 256 ≡ true
unfolding passes_from
unmask_table = refl

unmask : (x : ℕ) → x < 256 → bit_xor (bit_xor x 0x55) 0x55 ≡ x
unmask x h = (==_iff _ x).0 (passes_from-at _ 0 256 x unmask_table (omega arith) (omega (arith, h)))

expand_table : passes_from (λ a. (expand (a + 128) == expand a) && ltb 0 (expand a)) 0 128 ≡ true
unfolding passes_from expand
expand_table = refl

expand-sign : (a : ℕ) → a < 128 → (expand (a + 128) ≡ expand a) × (0 < expand a)
expand-sign a h =
    ground (arith, passes_from-at _ 0 128 a expand_table (omega arith) (omega (arith, h)))

decode_positive :
    (code : ℕ) → code < 128 → alaw_decode_byte (bit_xor (code + 128) 0x55) ≡ pos (expand code)
unfolding alaw_decode_byte
decode_positive code h = rw (unmask (code + 128) (omega arith)) (ground (arith, expand-sign code h))

decode_negative : (code : ℕ) → code < 128 → alaw_decode_byte (bit_xor code 0x55) ≡ neg (expand code)
unfolding alaw_decode_byte
decode_negative code h = rw (unmask code (omega arith)) (ground arith)

-- the quantized magnitude of a 16-bit sample
abbrev code_of : ℤ → ℕ
code_of s = quantize (min (magnitude s) 0x7FFF)

decode-encode :
    (s : ℤ)
    → code_of s < 128
    → alaw_decode_byte (alaw_encode_byte s)
      ≡ (if is_non_negative s then pos (expand (code_of s)) else neg (expand (code_of s)))
unfolding alaw_encode_byte
decode-encode (pos n) h = decode_positive (code_of (pos n)) h
decode-encode (negsuc n) h = decode_negative (code_of (negsuc n)) h

signed :
    (s : ℤ) {t : ℕ}
    → magnitude s ≤ 32768
    → 0 < t
    → t ≤ min (magnitude s) 0x7FFF + max 8 (min (magnitude s) 0x7FFF / 32)
    → min (magnitude s) 0x7FFF ≤ t + max 8 (min (magnitude s) 0x7FFF / 32)
    → (is_non_negative (if is_non_negative s then pos t else neg t) ≡ is_non_negative s)
      × (magnitude (if is_non_negative s then pos t else neg t)
          ≤ magnitude s + max 8 (magnitude s / 32))
      × (magnitude s
          ≤ magnitude (if is_non_negative s then pos t else neg t) + max 8 (magnitude s / 32))
signed (pos n) h positive above below = (refl, omega arith, omega arith)
signed (negsuc n) {t = zero} h positive above below = absurd (omega arith)
signed (negsuc n) {t = suc t} h positive above below = (refl, omega arith, omega arith)

-- Encoding and decoding a 16-bit sample keeps its sign, and changes its magnitude by at most 8 or
-- a 32nd part of it.
pub decode-encode_error :
    (s : ℤ)
    → magnitude s ≤ 32768
    → (is_non_negative (alaw_decode_byte (alaw_encode_byte s)) ≡ is_non_negative s)
      × (magnitude (alaw_decode_byte (alaw_encode_byte s)) ≤ magnitude s + max 8 (magnitude s / 32))
      × (magnitude s ≤ magnitude (alaw_decode_byte (alaw_encode_byte s)) + max 8 (magnitude s / 32))
decode-encode_error s h =
    let (above, below, small) = quantize_error (min (magnitude s) 0x7FFF) (omega arith) in
    let (same, positive) = expand-sign (code_of s) small in
    rw (decode-encode s small) (signed s h positive above below)

-- The fuel of `compress` is enough for 15 bits: the loop ends by its own test.
compress_done : (m : ℕ) → m < 32768 → (compress 6 m 0).0 ≤ 511
unfolding compress
compress_done m h = ground arith
