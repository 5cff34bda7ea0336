-- ===== src/Split.antt =====
-- cpworker/src/packet_split.c and packet_split.h: a captured frame is parsed down to its TCP or UDP
-- payload, and cut into frames of at most `max_payload_size` bytes of payload each.
pub mod Parse
pub mod Fragment
mod Examples
