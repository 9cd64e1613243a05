-- ===== src/Server/Request/Path.antt =====
-- Every request names a file below the public directory: request.c.
use operating_systems_course.Prelude.{
  ℕ, ◌+◌, ◌<◌, ◌≡◌, refl, Bool, true, false, List, [], ◌∷◌, ◌++◌, leb, length, length-append, arith,
  Bool-cases, inl, inr, eqb→eq,
}
use operating_systems_course.Server.Run.{ok, ◌>>=◌, Returns, returns}
use operating_systems_course.Server.Stats.{codes}
use operating_systems_course.Server.Request.{
  contains, before_query, after_query, ends_in_slash, maxline, public_dir, home, Parsed, fitting,
  parse_uri,
}

abbrev pub dots : List ℕ
dots = codes ".."

-- A path below the public directory that never goes up.
pub record Inside (filename : List ℕ) : Type 0 where
  pub rest : List ℕ
  pub below : filename ≡ public_dir ++ rest
  pub no_dots : contains dots filename ≡ false

dots-before_query :
    (uri : List ℕ) → contains dots uri ≡ false → contains dots (before_query uri) ≡ false
dots-before_query [] e = refl
dots-before_query (c ∷ []) e = ground arith
dots-before_query (c ∷ (d ∷ cs)) e = ground (arith, dots-before_query (d ∷ cs))

dots-home :
    (uri : List ℕ)
    → contains dots uri ≡ false
    → ends_in_slash uri ≡ true
    → contains dots (uri ++ home) ≡ false
dots-home [] e slash = refl
dots-home (c ∷ []) e slash = rw (eqb→eq c 47 slash) refl
dots-home (c ∷ (d ∷ cs)) e slash = ground (arith, dots-home (d ∷ cs))

length-before_query : (uri : List ℕ) → length (before_query uri) < length uri + 1
length-before_query [] = omega arith
length-before_query (c ∷ cs) = ground (arith, length-before_query cs)

fitting_lem : (text : List ℕ) → length text < maxline → fitting text ≡ ok text
fitting_lem text lt = ground arith

stored :
    (text cgiargs : List ℕ) (static : Bool)
    → length text + 9 < maxline
    → contains dots text ≡ false
    → Returns
        (λ (p : Parsed). Inside p.filename)
        (fitting (public_dir ++ text) >>= λ filename.
          ok (record { is_static = static; filename = filename; cgiargs = cgiargs }))
stored text cgiargs static lt none =
    rw (fitting_lem (public_dir ++ text) (omega arith))
      (returns (record { rest = text; below = refl; no_dots = none }))

-- `requestParseURI` on a string that is not empty and leaves 19 bytes of the buffer returns, without
-- a write beyond the buffer, and the file that it names lies below the public directory, by a path
-- that nowhere has two dots in a row.
pub parse_uri-Inside :
    (uri cgiargs : List ℕ)
    → 0 < length uri
    → length uri + 18 < maxline
    → Returns (λ (p : Parsed). Inside p.filename) (parse_uri uri cgiargs)
unfolding parse_uri
parse_uri-Inside uri cgiargs some_chars room = elim (Bool-cases (contains dots uri)) [
  | inl up ↦ rw up (returns (record { rest = home; below = refl; no_dots = refl }))
  | inr fine ↦ rw fine (elim (Bool-cases (contains (codes "cgi") uri)) [
    | inl cgi ↦ rw cgi (
        stored (before_query uri) (after_query uri) false (omega (arith, length-before_query uri))
          (dots-before_query uri fine))
    | inr plain ↦ rw plain (elim (Bool-cases (leb (length uri) 0)) [
      | inl empty ↦ absurd (ground arith)
      | inr full ↦ rw full (elim (Bool-cases (ends_in_slash uri)) [
        | inl slash ↦ rw slash (
            stored (uri ++ home) [] true (omega (arith, length-append uri home))
              (dots-home uri fine slash))
        | inr file ↦ rw file (stored uri [] true (omega arith) fine)
      ])
    ])
  ])
]
