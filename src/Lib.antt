-- ===== src/Lib.antt =====
-- Ankah, a gateway that stands between an HTTPS proxy and an application: it challenges clients
-- that are not verified, limits those that are, and forwards their requests.
--
-- The parts and the files that model them (paths from the repository's root):
--   Prelude: numbers, lists, C strings and machine words.
--   Slots: the loop by which the bounded tables of addresses choose a slot. It is written out three
--     times, in src/dots_policy.c, src/abuse_policy.c and src/rate.c, and stands here once, over the
--     test that makes one entry the better one to evict.
--   Dots.Tracker: `ankah_dots_tracker_hit` of src/dots_policy.c, which decides when an address is
--     reported to the upstream filter.
--   Dots.Names: `ankah_dots_acl_name`, `ankah_dots_valid_cuid` and `ankah_dots_scan_names` of the same
--     file. The search runs on fuel, one round for a byte and one more.
--   Dots.Reply: `ankah_dots_client_body` and `ankah_dots_status` of the same file.
--   Dots.Acl: `ankah_dots_acl_body` of the same file.
--   Abuse: src/abuse_policy.c, which counts the offences of an address, and for scans the different
--     paths. The loop that counts the digits of a word runs on fuel, 65 rounds for 64 digits.
--     `Abuse.Measure` says what makes an offence one to report.
--   Budget: `ankah_queue_*` of src/host.c, and src/h2_flow_policy.h: the bytes that may be queued.
--   Timeout: src/timeout_policy.h and `ankah_absolute_timeout_ms` of src/host.c.
--   Chunked: `ankah_chunked_body_consume` of src/http.c, a state machine over the bytes of a chunked
--     body. The loop runs on fuel, two rounds for a byte and two more, and never runs out of it.
--     `Chunked.Reference` is a machine that takes one byte at a time, `Chunked.Frames` the wire form.
--   Http: the record of a parsed request, of include/ankah/http.h, which the other parts read, and
--     in `Http.Cookies` `ankah_request_coalesce_cookies` of src/http.c. The lookup of a name in the
--     table that gperf generates is an argument.
--   Session: src/session.c, the table of visitors' sessions with the POST requests that are kept
--     until a challenge is solved. A session is passed by its index in the table. Randomness, the
--     challenge text and whether memory can be had come in as a `Supply`. `Session.Books` states
--     the accounts, `Session.Books.History` the histories of calls.
--   Pow: src/pow.c, the challenges and passes. The hashes, which are mbedtls's, are arguments; a
--     theorem that needs it takes as a hypothesis that a digest has 32 bytes. `Pow.Text` has the
--     encodings, `Pow.Answer` the functions, `Pow.Bits` the zero bits of a digest, `Pow.Issue`, `Pow.Solve` and `Pow.Genuine` what holds.
--   Host: authorities, headers and routes of src/host.c. `Host.Authority` has `ankah_authority` and `ankah_host_find`,
--     `Host.Headers` the checks of `ankah_host_request`, `Host.Routes` the choice of a route at its
--     end, `Host.Conflicts` the checks of a configuration. The search of a Connection header runs on fuel, one round for a byte and one more.
--   Proxy: src/proxy.c. `Proxy.Address` has the parsing of addresses, over libuv's conversions, which
--     are arguments, `Proxy.Network` the networks, `Proxy.Forwarded` the chains in headers and
--     `Proxy.Resolve` the choice of the client's address. The loop over the parameters of an element
--     runs on fuel, one round for a byte and one more.
--   Stats: the counters of src/stats.c by the hour and by the day. `Stats.Snapshot` has the check of a
--     snapshot's totals, `Stats.Codec` the snapshots as bytes, over an argument for the digest,
--     `Stats.History` the histories of calls, which a decoded snapshot (`Stats.Decoded`) may begin, and `Stats.RoundTrip` the reading of what was written.
--     `Stats.Files` has `ankah_stats_restore` and `ankah_stats_save`, over the calls of src/files.c,
--     which are arguments, `Stats.Saves` the histories of saves and `Stats.Resumed` the rings then.
--   Language: the choice of a page's language in src/language.c, from the Accept-Language headers. The
--     search for a shorter tag runs on fuel, one round for a byte. `Language.Quality` has the quality of an
--     element by its digits, `Language.Html` the rendering of pages; its loop runs on fuel, one round for a byte and one more.
--
-- How the model corresponds to the code. A C string is the list of its bytes before the terminating
-- NUL. `uint64_t` and `size_t` are natural numbers, and where a sum or a difference may wrap in the
-- code the wrap is written out. A static object is a record that each operation takes and returns.
-- An `int` result that reports success or a fact is a Boolean; one that chooses among several
-- outcomes is an `Option` or a data type. A null pointer argument, which the functions refuse at
-- once, is not modelled; nor is a failing allocation, where nothing else is said.
-- An array with a count is the list of its first `count` elements, since no code reads beyond.
--
-- Not modelled: the event loop, the front ends and everything that calls libuv, OpenSSL, nghttp2 or a
-- QUIC library; files and threads; the snapshots of the session table; floating-point rate limits;
-- generated tables, third-party code, and the scripts and pages. Nor are the parsing of a request
-- (src/http.c calls llhttp for it), src/crawler.c, src/link.c and src/static.c; of src/language.c the
-- texts and the log, and of src/stats.c the writers of JSON and CSV.
pub mod Prelude
pub mod Abuse
pub mod Budget
pub mod Chunked
pub mod Dots
pub mod Host
pub mod Http
pub mod Language
pub mod Pow
pub mod Proxy
pub mod Session
pub mod Slots
pub mod Stats
pub mod Timeout
