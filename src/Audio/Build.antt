-- ===== src/Audio/Build.antt =====
-- backend/app/audio/rtp_simulator.py: `build_rtp_packet`, and that the parser reads it back.
use tactical_core.Base.{ℕ, ◌+◌, ◌*◌, ◌%◌, ◌≡◌, Bool, false, [], ◌∷◌, ◌++◌, if◌then◌else◌, arith}
use tactical_core.Base.Result.{ok}
use tactical_core.Audio.Bytes.{Bytes, be16, be32, words_at}
use tactical_core.Audio.Packet.{parse_rtp_packet, skip_extension, strip_padding}

pub record RtpSendPacket : Type 0 where
  pub payload_type : ℕ
  pub sequence_number : ℕ
  pub timestamp : ℕ
  pub ssrc : ℕ
  pub marker : Bool
  pub payload : Bytes

-- at the default version 2; the numbers are cut to their fields
unfoldable pub build_rtp_packet : RtpSendPacket → Bytes
build_rtp_packet p =
    2 * 64 ∷ ((if p.marker then 128 else 0) + p.payload_type % 128) ∷ []
    ++ (be16 (p.sequence_number % 65536)
        ++ (be32 (p.timestamp % 4294967296) ++ (be32 (p.ssrc % 4294967296) ++ p.payload)))

-- The parser reads every built packet back: the numbers modulo the width of their fields, the
-- marker and the payload, with no padding, extension or contributing source.
pub parse-build :
    (p : RtpSendPacket)
    → parse_rtp_packet (build_rtp_packet p)
      ≡ ok (record {
        version = 2;
        padding = false;
        extension = false;
        csrc_count = 0;
        marker = p.marker;
        payload_type = p.payload_type % 128;
        sequence_number = p.sequence_number % 65536;
        timestamp = p.timestamp % 4294967296;
        ssrc = p.ssrc % 4294967296;
        csrcs = [];
        header_length = 12;
        payload = p.payload;
      })
unfolding parse_rtp_packet build_rtp_packet skip_extension strip_padding words_at
parse-build p = ground arith
