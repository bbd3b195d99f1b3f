-- ===== src/Tests.antt =====
-- Concrete runs of the code and the theorems at concrete inputs.
mod Games
mod Texts
mod Codecs
mod Requests
mod Payloads
mod Streams
mod Names
mod Openings
mod Numbers
mod Served
