-- ===== src/Util.antt =====
-- src/util/shell_sync.cc and src/net/http_client/http_client.cc: the commands and the requests that
-- leave the program.
pub mod Command
pub mod Request
