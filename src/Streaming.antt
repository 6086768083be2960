-- ===== src/Streaming.antt =====
-- internal/gateway/proxy: the relay of a provider's stream to the client (stream.go) and the parser
-- of server-sent events (sse_parser.go).
pub mod Relay
pub mod Sse
pub mod Frames
pub mod RoundTrip
mod Tests
