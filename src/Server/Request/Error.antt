-- ===== src/Server/Request/Error.antt =====
-- The answer to a request that fails: `requestError` of hw03-multithreaded-web-server/request.c.
--
-- What is sent is the list of what the calls of `Rio_writen` write.
pub mod Answer
mod Tests
use operating_systems_course.Prelude.{ℕ, take, List, [], ◌∷◌, ◌++◌, length}
use operating_systems_course.Server.Run.{Run, ok, ◌>>=◌}
use operating_systems_course.Server.Stats.{
  ThreadsStats, TimeStats, codes, decimal, sprintf_at, append_stats,
}
use operating_systems_course.Server.Request.{maxline}

-- The size of `body`, `MAXBUF` of segel.h
abbrev pub body_size : ℕ
body_size = 8192

-- `"\r\n"`
abbrev pub crlf : List ℕ
crlf = 13 ∷ (10 ∷ [])

-- What the five calls of `sprintf` on `body` print; 34 is the double quote.
pub body_pieces : (cause errnum shortmsg longmsg : List ℕ) → List (List ℕ)
body_pieces cause errnum shortmsg longmsg =
    codes "<html><title>OS-HW3 Error</title>"
    ∷ ((codes "<body bgcolor=" ++ (34 ∷ (codes "fffff" ++ (34 ∷ (codes ">" ++ crlf)))))
        ∷ ((errnum ++ (codes ": " ++ (shortmsg ++ crlf)))
            ∷ ((codes "<p>" ++ (longmsg ++ (codes ": " ++ (cause ++ crlf))))
                ∷ ((codes "<hr>OS-HW3 Web Server" ++ crlf) ∷ []))))

-- What the three calls on `buf` print.
pub header_pieces : (errnum shortmsg : List ℕ) (body_length : ℕ) → List (List ℕ)
header_pieces errnum shortmsg n =
    (codes "HTTP/1.0 " ++ (errnum ++ (codes " " ++ (shortmsg ++ crlf))))
    ∷ ((codes "Content-Type: text/html" ++ crlf)
        ∷ ((codes "Content-Length: " ++ (decimal n ++ crlf)) ∷ []))

-- `sprintf(buf + strlen(buf), piece)` for each piece.
pub print_behind : (size : ℕ) (buf : List ℕ) → List (List ℕ) → Run (List ℕ)
print_behind size buf [] = ok buf
print_behind size buf (p ∷ ps) =
    sprintf_at size buf (length buf) p >>= λ (buf', n). print_behind size buf' ps

-- `requestError`
pub request_error :
    (cause errnum shortmsg longmsg : List ℕ) → TimeStats → ThreadsStats → Run (List (List ℕ))
unfolding body_pieces header_pieces print_behind
request_error cause errnum shortmsg longmsg tm t =
    print_behind body_size [] (body_pieces cause errnum shortmsg longmsg) >>= λ body.
    print_behind maxline [] (header_pieces errnum shortmsg (length body)) >>= λ buf.
    append_stats maxline buf t tm >>= λ (buf', buf_len).
    ok (take buf_len buf' ∷ (take (length body) body ∷ []))
