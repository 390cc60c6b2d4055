-- ===== src/Audio/Packet.antt =====
-- backend/app/audio/rtp.py: the RTP parser and the validation of a parsed packet.
use tactical_core.Base.{
  ℕ, ◌+◌, ◌-◌, ◌*◌, ◌/◌, ◌%◌, Bool, true, false, not, Option, none, some, List, [], length, take,
  drop, ltb, ◌==◌, if◌then◌else◌,
}
use tactical_core.Base.Result.{Result, ok, err, ◌>>=◌, ◌>>◌, raise_if}
use tactical_core.Audio.Bytes.{Bytes, byte_at, be16_at, be32_at, words_at}

pub record RtpPacket : Type 0 where
  pub version : ℕ
  pub padding : Bool
  pub extension : Bool
  pub csrc_count : ℕ
  pub marker : Bool
  pub payload_type : ℕ
  pub sequence_number : ℕ
  pub timestamp : ℕ
  pub ssrc : ℕ
  pub csrcs : List ℕ
  pub header_length : ℕ
  pub payload : Bytes

-- the `ValueError`s, by their messages
pub data RtpError : Type 0 where
  empty_packet too_short unsupported_version csrc_overrun extension_length_overrun : RtpError
  extension_overrun padding_without_payload padding_too_long : RtpError
  version_mismatch payload_type_mismatch : RtpError

abbrev pub fixed_header_length : ℕ
fixed_header_length = 12

abbrev pub payload_len : RtpPacket → ℕ
payload_len p = length p.payload

-- `header_length` after the extension, if there is one
unfoldable pub skip_extension : Bytes → Bool → ℕ → Result RtpError ℕ
skip_extension bytes false header = ok header
skip_extension bytes true header = do
  raise_if (ltb (length bytes) (header + 4)) extension_length_overrun
  let after_extension = header + (4 + 4 * be16_at bytes (header + 2))
  raise_if (ltb (length bytes) after_extension) extension_overrun
  ok after_extension

-- `payload[-1]`
abbrev pub last_byte : Bytes → ℕ
last_byte bytes = byte_at bytes (length bytes - 1)

-- `payload[:-n]`, where `-0` is `0`
abbrev pub drop_last : ℕ → Bytes → Bytes
drop_last n payload = if n == 0 then [] else take (length payload - n) payload

unfoldable pub strip_padding : Bool → Bytes → Result RtpError Bytes
strip_padding false payload = ok payload
strip_padding true payload = do
  raise_if (length payload == 0) padding_without_payload
  let pad_length = last_byte payload
  raise_if (ltb (length payload) pad_length) padding_too_long
  ok (drop_last pad_length payload)

unfoldable pub parse_rtp_packet : Bytes → Result RtpError RtpPacket
parse_rtp_packet bytes = do
  raise_if (length bytes == 0) empty_packet
  raise_if (ltb (length bytes) fixed_header_length) too_short
  let byte0 = byte_at bytes 0
  let byte1 = byte_at bytes 1
  let version = byte0 / 64 % 4
  let padding = byte0 / 32 % 2 == 1
  let extension = byte0 / 16 % 2 == 1
  let csrc_count = byte0 % 16
  let csrc_end = fixed_header_length + 4 * csrc_count
  raise_if (not (version == 2)) unsupported_version
  raise_if (ltb (length bytes) csrc_end) csrc_overrun
  header_length ← skip_extension bytes extension csrc_end
  payload ← strip_padding padding (drop header_length bytes)
  ok (record {
    version = version;
    padding = padding;
    extension = extension;
    csrc_count = csrc_count;
    marker = byte1 / 128 % 2 == 1;
    payload_type = byte1 % 128;
    sequence_number = be16_at bytes 2;
    timestamp = be32_at bytes 4;
    ssrc = be32_at bytes 8;
    csrcs = words_at bytes csrc_count fixed_header_length;
    header_length = header_length;
    payload = payload;
  })

unfoldable pub validate_rtp_packet : RtpPacket → Option ℕ → ℕ → Result RtpError Unit
validate_rtp_packet packet expected_payload_type expected_version = do
  raise_if (not (packet.version == expected_version)) version_mismatch
  elim expected_payload_type [
    | none ↦ ok tt
    | some pt ↦ raise_if (not (packet.payload_type == pt)) payload_type_mismatch
  ]

unfoldable pub is_valid_rtp_packet : Bytes → Option ℕ → Bool
is_valid_rtp_packet bytes expected_payload_type =
    elim (parse_rtp_packet bytes >>= λ packet. validate_rtp_packet packet expected_payload_type 2) [
      | ok _ ↦ true
      | err _ ↦ false
    ]
