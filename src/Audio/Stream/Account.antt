-- ===== src/Audio/Stream/Account.antt =====
-- What the statistics of rtp_stream.py count.
use tactical_core.Base.{
  ap, ◌∙◌, ℕ, ◌+◌, ◌%◌, ◌<◌, ◌≡◌, refl, some, List, [], ◌∷◌, length, arith, All,
}
use native.Mathlib.Nat.{add-zero}
use tactical_core.Audio.Packet.{RtpPacket}
use tactical_core.Audio.Stream.{
  RtpDisposition, RtpStreamStats, sequence_delta, accept, on_delta, on_packet, track,
}

on_packet-counts :
    (now : ℕ) (packet : RtpPacket) (s : RtpStreamStats)
    → (on_packet now packet s).1.packets_received
        + (on_packet now packet s).1.duplicates
        + (on_packet now packet s).1.out_of_order
      ≡ s.packets_received + s.duplicates + s.out_of_order + 1
unfolding on_packet
on_packet-counts now packet s = ground arith

-- Every packet is counted once: as received, as a duplicate or as out of order.
pub track-counts :
    (clock : ℕ → ℕ) (n : ℕ) (packets : List RtpPacket) (s : RtpStreamStats)
    → (track clock n packets s).packets_received
        + (track clock n packets s).duplicates
        + (track clock n packets s).out_of_order
      ≡ s.packets_received + s.duplicates + s.out_of_order + length packets
unfolding track
track-counts clock n [] s = omega arith
track-counts clock n (packet ∷ packets) s = omega (
  arith,
  on_packet-counts (clock n) packet s,
  track-counts clock (n + 1) packets (on_packet (clock n) packet s).1,
)

-- a packet of the source `ssrc`, with a 16-bit number
abbrev pub IsFrom : ℕ → RtpPacket → Type 0
IsFrom ssrc p = (p.ssrc ≡ ssrc) × (p.sequence_number < 65536)

-- The stream stands at the number that lies `received + dropped` packets after `start`.
pub record StandsAt (ssrc start : ℕ) (s : RtpStreamStats) : Type 0 where
  pub source : s.current_ssrc ≡ some ssrc
  pub position : s.last_sequence ≡ some ((start + s.packets_received + s.packets_dropped) % 65536)

-- a delta below 2 ^ 15 leads from the last number to the new one
delta-position :
    (new total : ℕ) → new < 65536 → (total + sequence_delta new (total % 65536)) % 65536 ≡ new
unfolding sequence_delta
delta-position new total h = omega arith

on_delta-StandsAt :
    (now ssrc start : ℕ) (packet : RtpPacket) (s : RtpStreamStats)
    → packet.sequence_number < 65536
    → StandsAt ssrc start s
    → StandsAt ssrc start
        (on_delta now packet
          (sequence_delta packet.sequence_number
            ((start + s.packets_received + s.packets_dropped) % 65536))
          s).1
unfolding on_delta
on_delta-StandsAt now ssrc start packet s range at = ground (
  arith,
  delta-position packet.sequence_number (start + s.packets_received + s.packets_dropped) range,
)

on_packet-StandsAt :
    (now ssrc start : ℕ) (packet : RtpPacket) (s : RtpStreamStats)
    → IsFrom ssrc packet
    → StandsAt ssrc start s
    → StandsAt ssrc start (on_packet now packet s).1
unfolding on_packet
on_packet-StandsAt now ssrc start packet s from at =
    ground (arith, on_delta-StandsAt now ssrc start packet s from.1 at)

-- Whatever packets of one source with 16-bit numbers arrive, in whatever order, with whatever
-- repetitions and wraps of the number: if the number of the last accepted packet is a fixed start
-- plus the packets received and those counted as dropped, modulo 65536, it stays so.
pub track-StandsAt :
    (clock : ℕ → ℕ) (n ssrc start : ℕ) (packets : List RtpPacket) (s : RtpStreamStats)
    → All (IsFrom ssrc) packets
    → StandsAt ssrc start s
    → StandsAt ssrc start (track clock n packets s)
unfolding track
track-StandsAt clock n ssrc start [] s from at = at
track-StandsAt clock n ssrc start (packet ∷ packets) s from at =
    track-StandsAt clock (n + 1) ssrc start packets (on_packet (clock n) packet s).1 from.1
      (on_packet-StandsAt (clock n) ssrc start packet s from.0 at)

next_in_order :
    (now ssrc last : ℕ) (p : RtpPacket) (s : RtpStreamStats)
    → last < 65536
    → s.current_ssrc ≡ some ssrc
    → s.last_sequence ≡ some last
    → IsFrom ssrc p
    → p.sequence_number ≡ (last + 1) % 65536
    → (on_packet now p s).1 ≡ accept now p 0 s
unfolding on_packet sequence_delta
next_in_order now ssrc last p s range source at from next = ground arith

-- Packets whose numbers follow one another from `last`, wrapping at 65536.
abbrev pub InSequence : ℕ → List RtpPacket → Type 0
InSequence last [] = Unit
InSequence last (p ∷ ps) =
    (p.sequence_number ≡ (last + 1) % 65536) × InSequence p.sequence_number ps

-- A stream that stands at a 16-bit number of its source and goes on from it without loss or
-- reordering counts none: each packet is received, and nothing is dropped, repeated, late or a
-- gap, also where the number wraps.
pub track-InSequence :
    (clock : ℕ → ℕ) (n ssrc last : ℕ) (packets : List RtpPacket) (s : RtpStreamStats)
    → last < 65536
    → s.current_ssrc ≡ some ssrc
    → s.last_sequence ≡ some last
    → All (IsFrom ssrc) packets
    → InSequence last packets
    → ((track clock n packets s).packets_received ≡ s.packets_received + length packets)
      × ((track clock n packets s).packets_dropped ≡ s.packets_dropped)
      × ((track clock n packets s).duplicates ≡ s.duplicates)
      × ((track clock n packets s).sequence_gaps ≡ s.sequence_gaps)
      × ((track clock n packets s).out_of_order ≡ s.out_of_order)
unfolding track
track-InSequence clock n ssrc last [] s range source at from next =
    (omega arith, refl, refl, refl, refl)
track-InSequence clock n ssrc last (p ∷ ps) s range source at from next =
    let s' = accept (clock n) p 0 s in
    let step : (on_packet (clock n) p s).1 ≡ s' =
      next_in_order (clock n) ssrc last p s range source at from.0 next.0 in
    let (received, dropped, duplicates, gaps, late) =
      track-InSequence clock (n + 1) ssrc p.sequence_number ps s' from.0.1 source refl from.1
        next.1 in
    let e = ap (track clock (n + 1) ps) step in
    (
      omega (arith, ap (λ (t : RtpStreamStats). t.packets_received) e, received),
      ap (λ (t : RtpStreamStats). t.packets_dropped) e ∙ dropped ∙ add-zero s.packets_dropped,
      ap (λ (t : RtpStreamStats). t.duplicates) e ∙ duplicates,
      ap (λ (t : RtpStreamStats). t.sequence_gaps) e ∙ gaps,
      ap (λ (t : RtpStreamStats). t.out_of_order) e ∙ late,
    )

-- A packet of the stream's source that arrives when the stream stands one number further, as a
-- repetition of the packet before the last does, is out of order, and the count of duplicates is
-- as before.
pub late_duplicate :
    (now ssrc first : ℕ) (packet : RtpPacket) (s : RtpStreamStats)
    → first < 65536
    → packet.sequence_number ≡ first
    → packet.ssrc ≡ ssrc
    → s.current_ssrc ≡ some ssrc
    → s.last_sequence ≡ some ((first + 1) % 65536)
    → ((on_packet now packet s).0.disposition ≡ RtpDisposition.out_of_order)
      × ((on_packet now packet s).1.duplicates ≡ s.duplicates)
unfolding on_packet sequence_delta
late_duplicate now ssrc first packet s range number source current last =
    (ground arith, ground arith)
