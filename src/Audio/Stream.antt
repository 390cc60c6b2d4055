-- ===== src/Audio/Stream.antt =====
-- backend/app/audio/rtp_stream.py: the state of one RTP stream, and what a packet does to it.
pub mod Account
use tactical_core.Base.{
  ℕ, zero, ◌+◌, ◌-◌, ◌%◌, Bool, Option, none, some, List, [], ◌∷◌, length, ltb, ◌==◌, if◌then◌else◌,
}
use tactical_core.Audio.Packet.{RtpPacket}

pub data RtpDisposition : Type 0 where
  initial in_order duplicate gap out_of_order ssrc_change : RtpDisposition

pub record RtpStreamResult : Type 0 where
  pub disposition : RtpDisposition
  pub dropped : ℕ

pub record RtpStreamStats : Type 0 where
  pub packets_received : ℕ
  pub packets_dropped : ℕ
  pub duplicates : ℕ
  pub sequence_gaps : ℕ
  pub out_of_order : ℕ
  pub bytes_received : ℕ
  pub current_ssrc : Option ℕ
  pub ssrc_transitions : ℕ
  pub last_sequence : Option ℕ
  pub last_timestamp : Option ℕ
  pub last_packet_at : Option ℕ

abbrev pub no_stats : RtpStreamStats
no_stats = record {
  packets_received = 0;
  packets_dropped = 0;
  duplicates = 0;
  sequence_gaps = 0;
  out_of_order = 0;
  bytes_received = 0;
  current_ssrc = none;
  ssrc_transitions = 0;
  last_sequence = none;
  last_timestamp = none;
  last_packet_at = none;
}

-- `(new - previous) & 0xFFFF` of two 16-bit numbers
unfoldable pub sequence_delta : ℕ → ℕ → ℕ
sequence_delta new previous = (new + 65536 - previous) % 65536

-- `_accept`, at the clock reading `now`
abbrev pub accept : ℕ → RtpPacket → ℕ → RtpStreamStats → RtpStreamStats
accept now packet dropped stats = record stats {
  packets_received = stats.packets_received + 1;
  packets_dropped = stats.packets_dropped + dropped;
  bytes_received = stats.bytes_received + length packet.payload;
  last_sequence = some packet.sequence_number;
  last_timestamp = some packet.timestamp;
  last_packet_at = some now;
}

abbrev pub result : RtpDisposition → RtpStreamResult
result d = record { disposition = d; dropped = 0 }

-- the part of `on_packet` after the delta
unfoldable pub on_delta : ℕ → RtpPacket → ℕ → RtpStreamStats → RtpStreamResult × RtpStreamStats
on_delta now packet delta stats =
    if delta == 0
    then (result RtpDisposition.duplicate, record stats { duplicates = stats.duplicates + 1 })
    else if delta == 1
    then (result RtpDisposition.in_order, accept now packet 0 stats)
    else if ltb delta 32768
    then (
      record { disposition = RtpDisposition.gap; dropped = delta - 1 },
      accept now packet (delta - 1) (record stats { sequence_gaps = stats.sequence_gaps + 1 }),
    )
    else (
      result RtpDisposition.out_of_order,
      record stats { out_of_order = stats.out_of_order + 1 },
    )

-- the same source as before
unfoldable pub on_same_ssrc :
    ℕ → RtpPacket → Option ℕ → RtpStreamStats → RtpStreamResult × RtpStreamStats
on_same_ssrc now packet none stats = (result RtpDisposition.initial, accept now packet 0 stats)
on_same_ssrc now packet (some last) stats =
    on_delta now packet (sequence_delta packet.sequence_number last) stats

unfoldable pub on_ssrc :
    ℕ → RtpPacket → Option ℕ → RtpStreamStats → RtpStreamResult × RtpStreamStats
unfolding on_same_ssrc on_delta
on_ssrc now packet none stats = (
  result RtpDisposition.initial,
  accept now packet 0 (record stats { current_ssrc = some packet.ssrc }),
)
on_ssrc now packet (some ssrc) stats =
    if packet.ssrc == ssrc then on_same_ssrc now packet stats.last_sequence stats else (
      result RtpDisposition.ssrc_change,
      accept now packet 0 (record stats {
        current_ssrc = some packet.ssrc;
        ssrc_transitions = stats.ssrc_transitions + 1;
        last_sequence = none;
        last_timestamp = none;
      }),
    )

-- `RtpStreamTracker.on_packet`
unfoldable pub on_packet : ℕ → RtpPacket → RtpStreamStats → RtpStreamResult × RtpStreamStats
unfolding on_ssrc
on_packet now packet stats = on_ssrc now packet stats.current_ssrc stats

-- The tracker over a sequence of packets; `clock n` is the n-th reading of the clock.
unfoldable pub track : (ℕ → ℕ) → ℕ → List RtpPacket → RtpStreamStats → RtpStreamStats
unfolding on_packet
track clock n [] stats = stats
track clock n (packet ∷ packets) stats =
    track clock (n + 1) packets (on_packet (clock n) packet stats).1
