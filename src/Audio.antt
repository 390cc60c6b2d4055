-- ===== src/Audio.antt =====
-- backend/app/audio: the RTP packets, the stream state, and the G.711 A-law codec.
pub mod Bytes
pub mod Packet
pub mod Build
pub mod Alaw
pub mod Stream
pub mod Segmenter
pub mod FlowRouter
pub mod Parse
pub mod Padding
mod Tests
