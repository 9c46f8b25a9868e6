-- ===== src/Lib.antt =====
-- Rav is a webmail program. Its Rust backend (backend/src) keeps the sessions of logged-in
-- accounts, talks to the user's IMAP and SMTP servers, caches mail and settings in one SQLite
-- database per user, filters new mail, publishes the filters to a Sieve server, and queues outgoing
-- mail. This library models the parts whose state and rules are the program's own.
--
-- Parts and files (paths from the repository's root):
--   * Imap/Pool: backend/src/imap/pool.rs, the pool of idle IMAP sessions. `take` and `put` are the
--     methods, one step each, since a mutex guards them; `pop_fresh` is the loop of `take`.
--   * Outbox: backend/src/db/outbox.rs, the table of outgoing mail, with the worker of
--     backend/src/realtime/outbox_worker.rs (`start`, `settle` and `process_entry` are its
--     `process_entry`, cut where the SMTP send is) and the requests of
--     backend/src/routes/outbox.rs. Outbox/Queue is the system of both as a step relation in which
--     the process may stop anywhere. Outbox/Errors has the error type of backend/src/error.rs and
--     its retry rule.
--   * Filters: backend/src/db/filters.rs, the rules, their table, their validation, and which rules
--     a message meets. Its rules are what Sieve and Delivery work on.
--   * Sieve: backend/src/sieve/generator.rs, the script that rules and an out-of-office responder
--     become, as a text. The other side of the escapes is the reading that RFC 5228 gives of a
--     quoted string and of a `text:` literal.
--   * ManageSieve: backend/src/sieve/client.rs and protocol.rs, the upload of that script, as the
--     commands that the client writes and whether the stream is encrypted.
--   * Delivery: the filter loops of backend/src/realtime/idle.rs over one new message, as the
--     sequence of operations on the mail servers. With a Sieve server they leave to it the rules
--     that `is_sieve_capable` accepts.
--   * Sessions: backend/src/auth/session.rs, the four maps of the session store and its methods,
--     with the requests and the purging task of backend/src/main.rs as steps (Sessions/Consistent).
--   * Totp: backend/src/mfa/totp.rs and the TOTP part of backend/src/db/mfa.rs, the check of a
--     one-time code, the used steps and the lockout.
--   * Links: backend/src/link_proxy.rs, the signing and the check of a proxied link, from the bytes
--     that are signed to the hexadecimal tag.
--   * Assistant: backend/src/assistant, the assistant that answers from the user's mail.
--     Assistant/Refs has the references that stand for messages (refs.rs), Assistant/Fence and
--     Assistant/Tools the tools with their context (tools.rs; the context also counts the runs, as
--     the source does not), Assistant/Actions the check of a proposed action (actions.rs),
--     Assistant/Session the turn (session.rs) with the model, the mailbox and the drawn ids as
--     functions of the conversation so far, and Assistant/Stream the reading of a streamed reply
--     (model.rs).
--   * Sync: backend/src/realtime/sync.rs, the synchronisation of one folder of the mail cache with
--     the IMAP server, and the SQL statements of backend/src/db/messages.rs and
--     backend/src/db/folders.rs that it uses. Sync/Cycle has `sync_full`, `sync_condstore` and the
--     loop body of `run_sync`; Sync/Qresync the deletions that the server names
--     (backend/src/imap/qresync.rs and client.rs).
--   * Threads: backend/src/db/messages.rs, the thread of a message over all folders:
--     `compute_thread_id`, `get_thread_messages` and the rounds of `get_full_thread`.
--   * Imap/EncodedWords: backend/src/imap/parse.rs, the encoded words of RFC 2047 in headers.
--     Imap/EncodedWords/Rounds has the loop's bound, Imap/EncodedWords/Quoted the Q encoding.
--   * FolderCipher: backend/src/folder_cipher.rs, the ids that stand for folder names.
--   * Ics: backend/src/calendar/ics.rs, the dates and times of imported calendars.
--   * Csrf: backend/src/auth/csrf.rs, the check of the header `X-Requested-With`.
--   * Common: the helpers that these share.
--
-- How the code is represented: a table is the list of its rows in the order of insertion, and a
-- JSON column is the list it stands for; SQLite fails only by the primary key. A `HashMap` or
-- `DashMap` is an association list. A string that the program takes apart is the list of its code
-- points, or of its UTF-8 bytes where the file says so (Text); one that it only compares is a
-- native string. Times are numbers, in the unit that the file says; the clock and the random ids
-- are arguments. What is not the repository's own code is a parameter: the SMTP send, lower-casing
-- and regular expressions, the code of a time, key derivation and HMAC, AES-GCM, base64, UTF-8, and
-- the outcome of an operation on the mail server.
--
-- Bounds and fuel: loops are structural recursion. Decimal printing has the number plus one as its
-- fuel, which is enough digits for every number. The `loop` of `get_full_thread` has a bound on its
-- rounds, `enough_rounds`, one more than the ids that the table and the arguments name. The `while
-- let` of `decode_rfc2047` has the length of the header, of which each round passes a marker. A
-- turn of the assistant has the source's own bound of five steps and one. `u32` and `u64` parsing
-- fails from 2^32 and 2^64 on, as the source's does; token counts wrap at 2^64; a priority (`i64`)
-- is shifted by 2^63, which keeps its order.
--
-- Not modelled: the HTTP layer and the frontend; the IMAP and SMTP connections and the other
-- queries of the mail cache; search; push; the calendar tables, contacts and the other tables of
-- settings; OpenPGP and passkeys. Most of these are I/O around libraries; the lists of the mail
-- cache and the MIME structure of IMAP answers have rules of their own and are left open.
pub mod Assistant
pub mod Common
pub mod Csrf
pub mod Delivery
pub mod Filters
pub mod FolderCipher
pub mod Ics
pub mod Imap
pub mod Links
pub mod ManageSieve
pub mod Outbox
pub mod Sessions
pub mod Sieve
pub mod Sync
pub mod Threads
pub mod Totp
