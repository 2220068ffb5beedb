-- ===== src/Codec.antt =====
-- The packets of the protocol: serverd/packet/PacketParser.cpp, the request parsers and the response
-- builders of serverd/execution/{login,lobby,ping}.
pub mod Parser
pub mod Requests
pub mod Responses
pub mod ParserLaws
pub mod ResponseLaws
pub mod RequestLaws
