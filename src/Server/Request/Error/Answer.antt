-- ===== src/Server/Request/Error/Answer.antt =====
-- The answer to a request that fails is a whole HTTP message: request.c.
use operating_systems_course.Prelude.{ℕ, List, ◌∷◌, ◌++◌}
use operating_systems_course.Server.Stats.{codes, decimal}
use operating_systems_course.Server.Request.Error.{crlf}

-- The page that is shown; 34 is the double quote.
unfoldable pub page : (cause errnum shortmsg longmsg : List ℕ) → List ℕ
page cause errnum shortmsg longmsg =
    codes "<html><title>OS-HW3 Error</title><body bgcolor="
    ++ (34
        ∷ (codes "fffff"
            ++ (34
                ∷ (codes ">"
                    ++ (crlf
                        ++ (errnum
                            ++ (codes ": "
                                ++ (shortmsg
                                    ++ (crlf
                                        ++ (codes "<p>"
                                            ++ (longmsg
                                                ++ (codes ": "
                                                    ++ (cause
                                                        ++ (crlf
                                                            ++ (codes "<hr>OS-HW3 Web Server"
                                                            ++ crlf)))))))))))))))

-- The status line and the two header lines in front of the statistics.
unfoldable pub headers : (errnum shortmsg : List ℕ) (body_length : ℕ) → List ℕ
headers errnum shortmsg n =
    codes "HTTP/1.0 "
    ++ (errnum
        ++ (codes " "
            ++ (shortmsg
                ++ (crlf
                    ++ (codes "Content-Type: text/html"
                        ++ (crlf ++ (codes "Content-Length: " ++ (decimal n ++ crlf))))))))
