-- ===== src/Proj.antt =====
-- go-proj/src: the user service, from its handlers to its database and token cache.
pub mod Base
pub mod Dto
pub mod Dao
pub mod Service
pub mod Resp
pub mod Authorize
pub mod Api
mod Memory
mod Tests
