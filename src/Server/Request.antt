-- ===== src/Server/Request.antt =====
-- Requests: `requestParseURI` and `requestGetFiletype` of hw03-multithreaded-web-server/request.c;
-- `requestError` is in Error.
--
-- A C string is the list of its characters without the NUL.
mod Path
pub mod Error
mod Tests
use Prim.Native.String.{String}
use operating_systems_course.Prelude.{
  ℕ, ◌+◌, Bool, true, false, not, ◌&&◌, ◌||◌, Option, none, some, List, [], ◌∷◌, ◌++◌, ◌==◌, leb,
  length, if◌then◌else◌,
}
use operating_systems_course.Server.Run.{Run, ok, fault, ◌>>=◌}
use operating_systems_course.Server.Stats.{ThreadsStats, codes}

abbrev pub is_prefix : (pattern text : List ℕ) → Bool
is_prefix [] text = true
is_prefix (p ∷ ps) [] = false
is_prefix (p ∷ ps) (c ∷ cs) = (p == c) && is_prefix ps cs

-- `strstr(text, pattern) != NULL`
abbrev pub contains : (pattern text : List ℕ) → Bool
contains pattern [] = is_prefix pattern []
contains pattern (c ∷ cs) = is_prefix pattern (c ∷ cs) || contains pattern cs

-- The string up to `index(text, '?')`, and what follows that, if it is there.
abbrev pub before_query : List ℕ → List ℕ
before_query [] = []
before_query (c ∷ cs) = if c == 63 then [] else c ∷ before_query cs

abbrev pub after_query : List ℕ → List ℕ
after_query [] = []
after_query (c ∷ cs) = if c == 63 then cs else after_query cs

-- `text[strlen(text) - 1] == '/'` for a `text` that is not empty
abbrev pub ends_in_slash : List ℕ → Bool
ends_in_slash [] = false
ends_in_slash (c ∷ []) = c == 47
ends_in_slash (c ∷ (d ∷ cs)) = ends_in_slash (d ∷ cs)

abbrev pub maxline : ℕ
maxline = 8192

abbrev pub public_dir : List ℕ
public_dir = codes "./public/"

abbrev pub home : List ℕ
home = codes "home.html"

-- What `requestParseURI` returns and stores.
pub record Parsed : Type 0 where
  pub is_static : Bool
  pub filename : List ℕ
  pub cgiargs : List ℕ

-- A string that is stored in a buffer of `maxline` bytes.
abbrev pub fitting : List ℕ → Run (List ℕ)
fitting text = if leb maxline (length text) then fault else ok text

-- `requestParseURI`; the empty `uri` is read in front of its first byte. `cgiargs` is what stood in
-- that buffer.
pub parse_uri : (uri cgiargs : List ℕ) → Run Parsed
parse_uri uri cgiargs =
    if contains (codes "..") uri
    then ok (record { is_static = true; filename = public_dir ++ home; cgiargs = cgiargs })
    else if not (contains (codes "cgi") uri)
    then (if leb (length uri) 0
        then fault
        else (fitting (public_dir ++ (if ends_in_slash uri then uri ++ home else uri))
            >>= λ filename. ok (record { is_static = true; filename = filename; cgiargs = [] })))
    else (fitting (public_dir ++ before_query uri) >>= λ filename.
        ok (record { is_static = false; filename = filename; cgiargs = after_query uri }))

-- `requestGetFiletype`
pub get_filetype : (filename : List ℕ) → List ℕ
get_filetype filename =
    if contains (codes ".html") filename
    then codes "text/html"
    else if contains (codes ".gif") filename
    then codes "image/gif"
    else if contains (codes ".jpg") filename
    then codes "image/jpeg"
    else codes "text/plain"
