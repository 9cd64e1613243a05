-- ===== src/Server/Request/Error/Tests.antt =====
-- The answer to a request for a file that is not there.
