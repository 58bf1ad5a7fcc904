-- ===== src/Http.antt =====
-- httpDownload.c: the URL, the payload of one request, and the download by ranges.
pub mod Url
pub mod Payload
pub mod Reply
pub mod Chunked
pub mod Request
pub mod Ranges
