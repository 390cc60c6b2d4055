-- ===== src/Audio/Tests.antt =====
-- Runs of the RTP and audio code on concrete data.
use tactical_core.Base.{
  inl, String, Option, ◌≤◌, String, ℕ, ◌+◌, ◌-◌, ◌*◌, ◌%◌, ◌/◌, ◌≤◌, ◌<◌, ◌≡◌, refl, max, true,
  false, none, some, List, [], ◌∷◌, ◌++◌, arith, length, drop, take, leb, ◌⊎◌,
}
use tactical_core.Base.Result.{Result, ok}
use tactical_core.Audio.Bytes.{Bytes, words_at}
use tactical_core.Audio.Packet.{
  RtpPacket, last_byte, parse_rtp_packet, skip_extension, strip_padding,
}
use tactical_core.Audio.Build.{RtpSendPacket, build_rtp_packet, parse-build}
use tactical_core.Audio.Parse.{announced, parse_bounds}
use tactical_core.Audio.Padding.{zero_padding_drops_payload}
use tactical_core.Audio.Stream.{RtpStreamStats, no_stats, track}
use tactical_core.Audio.Stream.Account.{StandsAt, track-StandsAt}
use tactical_core.Audio.Alaw.{
  negsuc, magnitude, is_non_negative, alaw_decode_byte, alaw_encode_byte, alaw_to_pcm, pcm_to_alaw,
}
use tactical_core.Audio.Alaw.Codec.{pcm_to_alaw-alaw_to_pcm, decode-encode_error}
use tactical_core.Audio.FlowRouter.{FlowKey, FlowPipeline, find_flow, new_router, get_or_create}
use tactical_core.Audio.FlowRouter.Recency.{FlowCall, run_flows, last_uses}
use tactical_core.Audio.FlowRouter.Eviction.{Evicts, get_or_create-Evicts}
use tactical_core.Audio.Segmenter.{
  SegmentState, Floats, SegmentConfig, SegmentResult, Segmenter, is_idle, fresh,
}
use tactical_core.Audio.Segmenter.PreRoll.{IsBounded, after_frames, after_frames-IsBounded}
use tactical_core.Audio.Segmenter.Segments.{Frame, audio, feed, transmission_is_whole}

abbrev sent : RtpSendPacket
sent = record {
  payload_type = 8;
  sequence_number = 65536 + 7;
  timestamp = 160;
  ssrc = 1234;
  marker = true;
  payload = 213 ∷ 85 ∷ [];
}

parse-build_example :
    parse_rtp_packet (build_rtp_packet sent)
    ≡ ok (record {
      version = 2;
      padding = false;
      extension = false;
      csrc_count = 0;
      marker = true;
      payload_type = 8 % 128;
      sequence_number = (65536 + 7) % 65536;
      timestamp = 160 % 4294967296;
      ssrc = 1234 % 4294967296;
      csrcs = [];
      header_length = 12;
      payload = 213 ∷ 85 ∷ [];
    })
parse-build_example = parse-build sent

-- With padding announced and a last byte 0.
-- A datagram with two bytes of payload and two of padding.
abbrev padded_bytes : Bytes
padded_bytes = 160 ∷ 8 ∷ 0 ∷ 7 ∷ 0 ∷ 0 ∷ 0 ∷ 160 ∷ 0 ∷ 0 ∷ 4 ∷ 210 ∷ 213 ∷ 85 ∷ 0 ∷ 2 ∷ []

abbrev padded : RtpPacket
padded = record {
  version = 2;
  padding = true;
  extension = false;
  csrc_count = 0;
  marker = false;
  payload_type = 8;
  sequence_number = 7;
  timestamp = 160;
  ssrc = 1234;
  csrcs = [];
  header_length = 12;
  payload = 213 ∷ 85 ∷ [];
}

parse_padded : parse_rtp_packet padded_bytes ≡ ok padded
unfolding parse_rtp_packet skip_extension strip_padding words_at
parse_padded = refl

parse_bounds_example :
    (padded.version ≡ 2)
    × (padded.csrc_count < 16)
    × (length padded.csrcs ≡ padded.csrc_count)
    × (12 + 4 * padded.csrc_count ≤ padded.header_length)
    × (padded.header_length ≤ length padded_bytes)
    × (((padded.header_length
              + length padded.payload
              + announced padded.padding (drop padded.header_length padded_bytes)
            ≡ length padded_bytes)
          × (padded.payload
              ≡ take (length padded.payload) (drop padded.header_length padded_bytes)))
        ⊎ ((padded.padding ≡ true)
            × (last_byte (drop padded.header_length padded_bytes) ≡ 0)
            × (padded.payload ≡ [])))
parse_bounds_example = parse_bounds padded_bytes padded parse_padded

-- What follows the first byte of a datagram whose sound ends in a byte 0.
abbrev behind : Bytes
behind = 8 ∷ 0 ∷ 7 ∷ 0 ∷ 0 ∷ 0 ∷ 160 ∷ 0 ∷ 0 ∷ 4 ∷ 210 ∷ 213 ∷ 85 ∷ 0 ∷ []

abbrev unpadded : RtpPacket
unpadded = record padded { padding = false; payload = 213 ∷ 85 ∷ 0 ∷ [] }

parse_unpadded : parse_rtp_packet (128 ∷ behind) ≡ ok unpadded
unfolding parse_rtp_packet skip_extension strip_padding words_at
parse_unpadded = refl

zero_padding_drops_payload_example :
    parse_rtp_packet ((128 + 32) ∷ behind) ≡ ok (record unpadded { padding = true; payload = [] })
zero_padding_drops_payload_example =
    zero_padding_drops_payload 128 behind unpadded parse_unpadded refl (omega arith) refl

abbrev packet : ℕ → RtpPacket
packet n = record padded { padding = false; sequence_number = n; payload = 213 ∷ [] }

abbrev clock : ℕ → ℕ
clock n = 20 * n

abbrev shuffled : List RtpPacket
shuffled = packet 65535 ∷ packet 0 ∷ packet 3 ∷ packet 1 ∷ packet 3 ∷ []

abbrev standing : RtpStreamStats
standing = record no_stats {
  packets_received = 1;
  current_ssrc = some 1234;
  last_sequence = some 65534;
}

track-StandsAt_example : StandsAt 1234 65533 (track clock 0 shuffled standing)
track-StandsAt_example =
    track-StandsAt clock 0 1234 65533 shuffled standing
      (
        (refl, omega arith),
        (
          (refl, omega arith),
          ((refl, omega arith), ((refl, omega arith), ((refl, omega arith), tt))),
        ),
      )
      (record { source = refl; position = refl })

abbrev in_order : List RtpPacket
in_order = packet 65535 ∷ packet 0 ∷ packet 1 ∷ []

pcm_to_alaw-alaw_to_pcm_example :
    pcm_to_alaw (alaw_to_pcm (213 ∷ 85 ∷ 42 ∷ [])) ≡ 213 ∷ 85 ∷ 42 ∷ []
pcm_to_alaw-alaw_to_pcm_example =
    pcm_to_alaw-alaw_to_pcm (213 ∷ 85 ∷ 42 ∷ []) (omega arith, (omega arith, (omega arith, tt)))

decode-encode_error_example :
    (is_non_negative (alaw_decode_byte (alaw_encode_byte (negsuc 999))) ≡ false)
    × (magnitude (alaw_decode_byte (alaw_encode_byte (negsuc 999)))
        ≤ magnitude (negsuc 999) + max 8 (magnitude (negsuc 999) / 32))
    × (magnitude (negsuc 999)
        ≤ magnitude (alaw_decode_byte (alaw_encode_byte (negsuc 999)))
          + max 8 (magnitude (negsuc 999) / 32))
decode-encode_error_example = decode-encode_error (negsuc 999) (omega arith)

-- Durations and times in whole milliseconds, a sample to the millisecond.
abbrev millis : Floats ℕ ℕ
millis = record {
  zero_ms = 0;
  plus = λ a b. a + b;
  minus = λ a b. a - b;
  at_least = λ a b. leb b a;
  or_zero = λ a. a;
  frame_ms = λ n. n / 2;
  earlier = λ t d. t - d;
}

abbrev config : SegmentConfig ℕ
config = record {
  pre_roll_ms = 4;
  min_speech_ms = 2;
  max_segment_ms = 60;
  finalize_silence_ms = 2;
  prebuffer_bytes = 8;
}

abbrev talking : Segmenter ℕ ℕ
talking = record (fresh millis config) {
  state = SegmentState.recording;
  recorded = 1 ∷ 2 ∷ [];
  recording_ms = 1;
}

abbrev frames : List (Frame ℕ)
frames =
    record { pcm = 3 ∷ 4 ∷ []; vad_active = true; now = 10 }
    ∷ record { pcm = 5 ∷ 6 ∷ []; vad_active = false; now = 11 }
    ∷ record { pcm = 7 ∷ 8 ∷ []; vad_active = false; now = 12 }
    ∷ record { pcm = 9 ∷ 9 ∷ []; vad_active = false; now = 13 }
    ∷ []

transmission_is_whole_example :
    ((r : SegmentResult ℕ ℕ) × (used unused : List (Frame ℕ)) × (frames ≡ used ++ unused)
      × (feed millis config frames talking ≡ (some r, fresh millis config, unused))
      × (r.pcm ≡ talking.recorded ++ audio used))
    ⊎ ((s' : Segmenter ℕ ℕ) × (feed millis config frames talking ≡ (none, s', []))
        × (is_idle s'.state ≡ false)
        × (s'.recorded ≡ talking.recorded ++ audio frames)
        × ((frames ≡ []) ⊎ (leb 60 s'.recording_ms ≡ false)))
transmission_is_whole_example = transmission_is_whole millis config frames talking refl

abbrev flow : ℕ → FlowKey
flow port = record { src_ip = "10.0.0.1"; src_port = port; dst_port = 5004 }

abbrev factory : FlowKey → Result String (Option ℕ)
factory key = ok (some key.src_port)

abbrev pipeline : ℕ → ℕ → FlowPipeline ℕ
pipeline now port = record {
  flow_key = flow port;
  tracker = no_stats;
  recorder = some port;
  created_at = now;
  last_access = now;
}

-- The first flow sends again before the third comes.
abbrev packets : List FlowCall
packets =
    FlowCall.packet_from 1 (flow 7)
    ∷ FlowCall.packet_from 2 (flow 8)
    ∷ FlowCall.packet_from 3 (flow 7)
    ∷ []

get_or_create-Evicts_example :
    Evicts
      (last_uses packets (λ k. none))
      (flow 9)
      (run_flows packets (new_router factory 2))
      (factory (flow 9))
      (get_or_create 4 (flow 9) (run_flows packets (new_router factory 2)))
unfolding find_flow run_flows get_or_create new_router
get_or_create-Evicts_example =
    get_or_create-Evicts factory 2 packets 4 (flow 9)
      (omega arith, (omega arith, (omega arith, omega arith))) refl

-- It is the second flow that goes.
evicted_flow :
    (get_or_create 4 (flow 9) (run_flows packets (new_router factory 2))).1.finalized
    ≡ pipeline 2 8 ∷ []
unfolding run_flows get_or_create new_router
evicted_flow = refl

abbrev listening : Segmenter ℕ ℕ
listening = record (fresh millis config) {
  prebuffer = (1 ∷ 2 ∷ []) ∷ (3 ∷ 4 ∷ []) ∷ [];
  prebuffer_ms = 2;
}

after_frames-IsBounded_example :
    IsBounded millis config (after_frames millis config frames listening).prebuffer
after_frames-IsBounded_example =
    after_frames-IsBounded millis config frames listening (inl (omega arith))
