-- ===== src/Httpd.antt =====
-- The HTTP boot service: Defs holds ServeHTTP of httpd/handler.go, Server httpd/server.go,
-- Sources and Serves the cases of its answer, Answers the proofs about what it serves and when it panics.
pub mod Defs
pub mod Server
pub mod Sources
pub mod Serves
pub mod Answers
mod Tests
