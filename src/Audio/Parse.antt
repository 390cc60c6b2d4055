-- ===== src/Audio/Parse.antt =====
-- What an RTP packet that rtp.py accepts looks like.
use tactical_core.Base.{
  ℕ, zero, suc, ◌+◌, ◌-◌, ◌*◌, ◌%◌, ◌<◌, ◌≤◌, ◌≡◌, refl, ap, Bool, true, false, [], arith, length,
  drop, length-take, length-drop, ◌==◌, ◌∙◌, take, ◌⊎◌, inl, inr, Bool-cases, sym, ◌∷◌,
}
use tactical_core.Base.Result.{ok}
use tactical_core.Audio.Bytes.{Bytes, byte_at, words_at}
use tactical_core.Audio.Packet.{
  RtpPacket, skip_extension, strip_padding, parse_rtp_packet, last_byte,
}

length-words_at : (bytes : Bytes) (n i : ℕ) → length (words_at bytes n i) ≡ n
unfolding words_at
length-words_at bytes zero i = refl
length-words_at bytes (suc n) i = ap suc (length-words_at bytes n (i + 4))

pub skip_extension_bounds :
    (bytes : Bytes) (extension : Bool) (header : ℕ) {h : ℕ}
    → header ≤ length bytes
    → skip_extension bytes extension header ≡ ok h
    → (header ≤ h) × (h ≤ length bytes)
unfolding skip_extension
skip_extension_bounds bytes false header room eq = ground arith
skip_extension_bounds bytes true header room eq = ground arith

-- The padding that the last byte announces.
abbrev pub announced : Bool → Bytes → ℕ
announced false rest = 0
announced true rest = last_byte rest

-- The payload is what stands in front of the announced padding, or padding of length 0 is announced.
abbrev IsCutFrom : Bool → Bytes → Bytes → Type 0
IsCutFrom padding rest kept =
    ((length kept + announced padding rest ≡ length rest) × (kept ≡ take (length kept) rest))
    ⊎ ((padding ≡ true) × (last_byte rest ≡ 0) × (kept ≡ []))

take-length : (xs : Bytes) → take (length xs) xs ≡ xs
take-length [] = refl
take-length (x ∷ xs) = ap (λ t. x ∷ t) (take-length xs)

strip_padding-IsCutFrom :
    (padding : Bool) (rest : Bytes) {kept : Bytes}
    → strip_padding padding rest ≡ ok kept
    → IsCutFrom padding rest kept
unfolding strip_padding
strip_padding-IsCutFrom false rest eq = ground (arith, take-length rest)
strip_padding-IsCutFrom true rest {kept} eq = elim (Bool-cases (last_byte rest == 0)) [
  | inl no_length ↦ inr (refl, ground arith, ground arith)
  | inr some_length ↦
      let n = length rest - last_byte rest in
      let cut : kept ≡ take n rest = ground arith in
      let fits : last_byte rest ≤ length rest = ground arith in
      let long : length kept ≡ n = ap length cut ∙ ground (arith, length-take n rest) in
      inl (omega (arith, long, fits), cut ∙ ap (λ m. take m rest) (sym long))
]

-- a packet that is accepted: the fields as the header's bits give them, and the two regions
pub parse_inversion :
    (bytes : Bytes) (p : RtpPacket)
    → parse_rtp_packet bytes ≡ ok p
    → (12 ≤ length bytes)
      × (p.version ≡ 2)
      × (p.csrc_count ≡ byte_at bytes 0 % 16)
      × (12 + 4 * p.csrc_count ≤ length bytes)
      × (skip_extension bytes p.extension (12 + 4 * p.csrc_count) ≡ ok p.header_length)
      × (strip_padding p.padding (drop p.header_length bytes) ≡ ok p.payload)
      × (p.csrcs ≡ words_at bytes p.csrc_count 12)
unfolding parse_rtp_packet
parse_inversion bytes p eq = ground arith

-- An accepted packet has version 2 and as many contributing sources as its header counts, its
-- header covers the fixed part and the sources and lies in the datagram. Either header, payload and
-- the padding that the last byte announces, if the padding bit is set, make up the datagram, and the
-- payload is what stands between the other two; or the padding bit is set, the last byte is 0, and
-- the payload is empty.
pub parse_bounds :
    (bytes : Bytes) (p : RtpPacket)
    → parse_rtp_packet bytes ≡ ok p
    → (p.version ≡ 2)
      × (p.csrc_count < 16)
      × (length p.csrcs ≡ p.csrc_count)
      × (12 + 4 * p.csrc_count ≤ p.header_length)
      × (p.header_length ≤ length bytes)
      × (((p.header_length + length p.payload + announced p.padding (drop p.header_length bytes)
              ≡ length bytes)
            × (p.payload ≡ take (length p.payload) (drop p.header_length bytes)))
          ⊎ ((p.padding ≡ true) × (last_byte (drop p.header_length bytes) ≡ 0) × (p.payload ≡ [])))
parse_bounds bytes p eq =
    let (long, version, count, room, header, stripped, csrcs) = parse_inversion bytes p eq in
    let bounds = skip_extension_bounds bytes p.extension (12 + 4 * p.csrc_count) room header in
    let rest = length-drop p.header_length bytes in
    (
      version,
      omega (arith, count),
      ap length csrcs ∙ length-words_at bytes p.csrc_count 12,
      bounds.0,
      bounds.1,
      elim (strip_padding-IsCutFrom p.padding (drop p.header_length bytes) stripped) [
        | inl (sum, cut) ↦ inl (omega (arith, bounds, sum, rest), cut)
        | inr zero_length ↦ inr zero_length
      ],
    )
