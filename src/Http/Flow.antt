-- ===== src/Http/Flow.antt =====
-- The stages of a request one after the other: the reads of src/http/http.c, both parsers of
-- src/http/http_parse.c and the header handlers of src/http/http_request.c, on one ring buffer.
pub mod Texts
pub mod Served
mod Tests
