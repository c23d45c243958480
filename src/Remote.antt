-- ===== src/Remote.antt =====
-- lib/linyaps_remote.c: the client of the remote catalogue. `Handles` is the pool of libcurl
-- handles that its requests share.
pub mod Handles
pub mod Buffer
pub mod Http
pub mod Records
pub mod Pages
pub mod Checks
pub mod Examples
