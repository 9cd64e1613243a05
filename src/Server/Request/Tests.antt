-- ===== src/Server/Request/Tests.antt =====
-- Two paths by hand.
use operating_systems_course.Prelude.{◌≡◌, refl, false, [], arith}
use operating_systems_course.Server.Run.{ok, Returns}
use operating_systems_course.Server.Stats.{codes}
use operating_systems_course.Server.Request.{Parsed, parse_uri}
use operating_systems_course.Server.Request.Path.{Inside, parse_uri-Inside}

query_split :
    parse_uri (codes "/add.cgi?1&2") []
    ≡ ok (record { is_static = false; filename = codes "./public//add.cgi"; cgiargs = codes "1&2" })
unfolding parse_uri
query_split = refl

parse_uri-Inside_example :
    Returns (λ (p : Parsed). Inside p.filename) (parse_uri (codes "/pages/") [])
parse_uri-Inside_example = parse_uri-Inside (codes "/pages/") [] (omega arith) (omega arith)
