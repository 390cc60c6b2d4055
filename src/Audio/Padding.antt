-- ===== src/Audio/Padding.antt =====
-- Padding of length 0 in the packets that rtp.py accepts.
use tactical_core.Base.{
  subst, ◌/◌, ℕ, zero, suc, ◌+◌, ◌*◌, ◌%◌, ◌≤◌, ◌≡◌, refl, ap, Bool, true, false, [], arith, length,
  drop, ◌==◌, ◌∙◌, sym, ◌∷◌,
}
use tactical_core.Base.Result.{ok}
use tactical_core.Audio.Bytes.{Bytes, byte_at, be16_at, be32_at, words_at}
use tactical_core.Audio.Packet.{
  RtpPacket, skip_extension, strip_padding, parse_rtp_packet, last_byte,
}
use tactical_core.Audio.Parse.{skip_extension_bounds, parse_inversion}

-- What is read behind the first byte does not depend on it.
byte_at-behind : (x y n : ℕ) (rest : Bytes) → 1 ≤ n → byte_at (x ∷ rest) n ≡ byte_at (y ∷ rest) n
byte_at-behind x y zero rest h = absurd (omega arith)
byte_at-behind x y (suc n) rest h = refl

words_at-behind :
    (x y n i : ℕ) (rest : Bytes) → 1 ≤ i → words_at (x ∷ rest) n i ≡ words_at (y ∷ rest) n i
unfolding words_at
words_at-behind x y zero i rest h = refl
words_at-behind x y (suc n) i rest h = ground (
  arith,
  words_at-behind x y n (i + 4) rest (omega arith),
  byte_at-behind x y i rest h,
  byte_at-behind x y (i + 1) rest (omega arith),
  byte_at-behind x y (i + 2) rest (omega arith),
  byte_at-behind x y (i + 3) rest (omega arith),
)

drop-behind : (x y n : ℕ) (rest : Bytes) → 1 ≤ n → drop n (x ∷ rest) ≡ drop n (y ∷ rest)
drop-behind x y zero rest h = absurd (omega arith)
drop-behind x y (suc n) rest h = refl

skip_extension-behind :
    (x y : ℕ) (rest : Bytes) (extension : Bool) (header : ℕ)
    → skip_extension (x ∷ rest) extension header ≡ skip_extension (y ∷ rest) extension header
unfolding skip_extension
skip_extension-behind x y rest false header = refl
skip_extension-behind x y rest true header = ground (
  arith,
  byte_at-behind x y (header + 2) rest (omega arith),
  byte_at-behind x y (header + 2 + 1) rest (omega arith),
)

strip_padding-zero :
    (rest : Bytes) → 1 ≤ length rest → last_byte rest ≡ 0 → strip_padding true rest ≡ ok []
unfolding strip_padding
strip_padding-zero rest some_bytes zero_last = ground arith

-- The packet with the fields of the header as `bytes` have them.
abbrev fields : Bytes → Bool → ℕ → Bytes → RtpPacket
fields bytes padding header_length payload = record {
  version = byte_at bytes 0 / 64 % 4;
  padding = padding;
  extension = byte_at bytes 0 / 16 % 2 == 1;
  csrc_count = byte_at bytes 0 % 16;
  marker = byte_at bytes 1 / 128 % 2 == 1;
  payload_type = byte_at bytes 1 % 128;
  sequence_number = be16_at bytes 2;
  timestamp = be32_at bytes 4;
  ssrc = be32_at bytes 8;
  csrcs = words_at bytes (byte_at bytes 0 % 16) 12;
  header_length = header_length;
  payload = payload;
}

parse-fields :
    (bytes : Bytes) (p : RtpPacket)
    → parse_rtp_packet bytes ≡ ok p
    → (p ≡ fields bytes p.padding p.header_length p.payload)
      × (p.padding ≡ (byte_at bytes 0 / 32 % 2 == 1))
unfolding parse_rtp_packet
parse-fields bytes p eq = ground arith

parse_accepts :
    (bytes : Bytes) (header : ℕ) (payload : Bytes)
    → 12 ≤ length bytes
    → byte_at bytes 0 / 64 % 4 ≡ 2
    → 12 + 4 * (byte_at bytes 0 % 16) ≤ length bytes
    → skip_extension bytes (byte_at bytes 0 / 16 % 2 == 1) (12 + 4 * (byte_at bytes 0 % 16))
      ≡ ok header
    → strip_padding (byte_at bytes 0 / 32 % 2 == 1) (drop header bytes) ≡ ok payload
    → parse_rtp_packet bytes ≡ ok (fields bytes (byte_at bytes 0 / 32 % 2 == 1) header payload)
unfolding parse_rtp_packet
parse_accepts bytes header payload long version room skipped stripped = ground arith

-- Setting the padding bit of the first byte changes none of its other fields.
bits :
    (b : ℕ)
    → (b / 32 % 2 == 1) ≡ false
    → ((b + 32) / 64 % 4 ≡ b / 64 % 4)
      × ((b + 32) / 16 % 2 ≡ b / 16 % 2)
      × ((b + 32) % 16 ≡ b % 16)
      × (((b + 32) / 32 % 2 == 1) ≡ true)
bits b h =
    let even : b / 32 % 2 ≡ 0 = ground arith in
    (omega (arith, even), omega (arith, even), omega arith, ground arith)

fields-bit :
    (first : ℕ) (rest : Bytes) (header : ℕ)
    → (first / 32 % 2 == 1) ≡ false
    → fields ((first + 32) ∷ rest) ((first + 32) / 32 % 2 == 1) header []
      ≡ fields (first ∷ rest) true header []
fields-bit first rest header even =
    ground (
      arith,
      bits first even,
      words_at-behind (first + 32) first (first % 16) 12 rest (omega arith),
    )

-- Any packet without padding that is accepted, and whose payload ends in a byte 0: with the padding
-- bit of its first byte set it is accepted too, with the same fields, and its whole payload is
-- dropped. A padding length of 0 is not refused, and `payload[:-0]` is empty.
pub zero_padding_drops_payload :
    (first : ℕ) (rest : Bytes) (p : RtpPacket)
    → parse_rtp_packet (first ∷ rest) ≡ ok p
    → p.padding ≡ false
    → 1 ≤ length p.payload
    → last_byte p.payload ≡ 0
    → parse_rtp_packet ((first + 32) ∷ rest) ≡ ok (record p { padding = true; payload = [] })
unfolding strip_padding
zero_padding_drops_payload first rest p eq unpadded some_bytes zero_last =
    let a = first ∷ rest in
    let b = (first + 32) ∷ rest in
    let h = p.header_length in
    let (long, version, count, room, header, stripped, csrcs) = parse_inversion a p eq in
    let (same, bit) = parse-fields a p eq in
    let even : (first / 32 % 2 == 1) ≡ false = sym bit ∙ unpadded in
    let (b_version, b_extension, b_count, b_padding) = bits first even in
    let covered = skip_extension_bounds a p.extension (12 + 4 * p.csrc_count) room header in
    let is_rest : p.payload ≡ drop h b =
      ground (
        arith,
        stripped,
        unpadded,
        drop-behind first (first + 32) h rest (omega (arith, covered)),
      ) in
    let extension = ap (λ n. n == 1) b_extension ∙ sym (ap (λ (q : RtpPacket). q.extension) same) in
    let skipped =
      ap (λ e. skip_extension b e (12 + 4 * ((first + 32) % 16))) extension
      ∙ ap (λ c. skip_extension b p.extension (12 + 4 * c)) (b_count ∙ sym count)
      ∙ skip_extension-behind (first + 32) first rest p.extension (12 + 4 * p.csrc_count)
      ∙ header in
    let emptied =
      ap (λ e. strip_padding e (drop h b)) b_padding
      ∙ strip_padding-zero (drop h b) (subst (λ q. 1 ≤ length q) is_rest some_bytes)
          (subst (λ q. last_byte q ≡ 0) is_rest zero_last) in
    parse_accepts b h [] (omega (arith, long))
      (b_version ∙ sym (ap (λ (q : RtpPacket). q.version) same) ∙ version)
      (omega (arith, b_count, count, room)) skipped emptied
    ∙ ap ok (
        fields-bit first rest h even
        ∙ sym (ap (λ (q : RtpPacket). record q { padding = true; payload = [] }) same))
