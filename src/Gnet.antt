-- ===== src/Gnet.antt =====
-- The TCP server of go-server: packages gnet and global.
pub mod Base
pub mod Msg
pub mod Serializer
pub mod Reader
pub mod Outcome
pub mod Handler
pub mod Dispatch
pub mod Conn
pub mod Server
pub mod Program
mod Tests
