-- ===== src/Tacplus.antt =====
-- pkg/public/tacplus: the TACACS+ protocol library.
pub mod Wire
pub mod Packet
pub mod Crypt
pub mod Codec
pub mod Session
pub mod Message
pub mod Server
pub mod Dispatch
pub mod Framing
pub mod Conn
pub mod Client
pub mod Tests
