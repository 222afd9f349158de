-- ===== src/Handshake/Whole.antt =====
-- `Dial` against `TakeOver`: client.go and server.go together.
pub mod Offer
pub mod Reply
pub mod Serving
pub mod Accepting
pub mod Plain
pub mod Agreeing
pub mod Joined
