-- ===== src/Imap.antt =====
-- The IMAP side of the backend: the pool of idle sessions, and the encoded words of headers.
pub mod Pool
pub mod EncodedWords
