-- ===== src/Api/Requests/Effects.antt =====
-- What each request leaves of the whole database, on every path: the writes that it does, or none.
pub mod Market
pub mod Registry
