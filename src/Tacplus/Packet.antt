-- ===== src/Tacplus/Packet.antt =====
pub mod Args
pub mod AuthenStart
pub mod AuthenReply
pub mod AuthenContinue
pub mod AuthorRequest
pub mod AuthorResponse
pub mod AcctRequest
pub mod AcctReply
