-- ===== src/Net.antt =====
-- Addresses of other machines: parsed URLs and what the code asks of them.
pub mod Url
pub mod ClientIp
pub mod Unspoofed
pub mod Tests
