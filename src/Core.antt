-- ===== src/Core.antt =====
-- include/mpcc/core and src/core: the cipher, the wire messages, descriptors, and the session.
pub mod Cipher
pub mod Message
pub mod Net
pub mod UniqueFd
pub mod Session
pub mod FileIo
