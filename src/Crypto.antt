-- ===== src/Crypto.antt =====
-- thirdpart/https/aes.h: the ciphers of the login and order servers' texts.
pub mod Des
pub mod Aes
