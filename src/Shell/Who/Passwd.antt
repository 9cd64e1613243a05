-- ===== src/Shell/Who/Passwd.antt =====
-- What `whoami` of Commands.cpp finds in a file of accounts.
use mathlib.Core.List.{append_assoc, append-nil}
use operating_systems_course.Prelude.{
  ℕ, zero, suc, ◌≤◌, ◌≡◌, refl, false, ◌||◌, Option, none, some, List, [], ◌∷◌, ◌++◌, map, ◌==◌,
  if◌then◌else◌, arith, has, length, take, ap, ◌∙◌, inl, inr, Bool-cases, eq→eqb,
}
use operating_systems_course.Shell.Who.{
  newline, colon, c_string, buffered, token, tokens, cut, fields, id_of, Account, find_account,
  get_account,
}

-- The text of an account, a line of /etc/passwd.
pub record User : Type 0 where
  pub name : List ℕ
  pub password : List ℕ
  pub uid : List ℕ
  pub gid : List ℕ
  pub info : List ℕ
  pub dir : List ℕ
  pub shell : List ℕ

-- A text without NUL, newline and colon.
abbrev pub Plain : List ℕ → Type 0
Plain xs = (has 0 xs ≡ false) × (has newline xs ≡ false) × (has colon xs ≡ false)

pub record IsEntry (u : User) : Type 0 where
  pub name : Plain u.name
  pub password : Plain u.password
  pub uid : Plain u.uid
  pub gid : Plain u.gid
  pub info : Plain u.info
  pub dir : Plain u.dir
  pub shell : Plain u.shell

abbrev pub Entries : List User → Type 0
Entries [] = Unit {0}
Entries (u ∷ us) = IsEntry u × Entries us

abbrev pub line_of : User → List ℕ
line_of u =
    u.name
    ++ (colon
        ∷ (u.password
            ++ (colon
                ∷ (u.uid
                    ++ (colon
                        ∷ (u.gid
                            ++ (colon ∷ (u.info ++ (colon ∷ (u.dir ++ (colon ∷ u.shell)))))))))))

abbrev pub text_of : List User → List ℕ
text_of [] = []
text_of (u ∷ us) = line_of u ++ (newline ∷ text_of us)

-- The first account with a user id.
abbrev pub first_user : (List ℕ → ℕ) → (uid : ℕ) → List User → Option Account
first_user number uid [] = none
first_user number uid (u ∷ us) =
    if id_of number u.uid == uid
    then some (record { name = u.name; gid = id_of number u.gid; dir = u.dir })
    else first_user number uid us

has-append : (c : ℕ) (xs ys : List ℕ) → has c (xs ++ ys) ≡ has c xs || has c ys
has-append c [] ys = refl
has-append c (x ∷ xs) ys = let rest = has-append c xs ys in ground (arith, rest)

c_string-plain : (xs : List ℕ) → has 0 xs ≡ false → c_string xs ≡ xs
c_string-plain [] e = refl
c_string-plain (x ∷ xs) e =
    let here : x == 0 ≡ false = ground arith in
    rw here (ap (λ ys. x ∷ ys) (c_string-plain xs (ground arith)))

cut-append : (d : ℕ) (xs ys : List ℕ) → has d xs ≡ false → cut d (xs ++ (d ∷ ys)) ≡ (xs, some ys)
cut-append d [] ys e = rw (eq→eqb d d refl) refl
cut-append d (x ∷ xs) ys e =
    let other : x == d ≡ false = ground arith in
    rw other (ap (λ (front, rest). (x ∷ front, rest)) (cut-append d xs ys (ground arith)))

cut-plain : (d : ℕ) (xs : List ℕ) → has d xs ≡ false → cut d xs ≡ (xs, none)
cut-plain d [] e = refl
cut-plain d (x ∷ xs) e =
    let other : x == d ≡ false = ground arith in
    rw other (ap (λ (front, rest). (x ∷ front, rest)) (cut-plain d xs (ground arith)))

fields-suc :
    (more : ℕ) (xs ys : List ℕ)
    → has colon xs ≡ false
    → fields (suc more) (xs ++ (colon ∷ ys)) ≡ xs ∷ fields more ys
fields-suc more xs ys e =
    let found = cut-append colon xs ys e in
    rw (fields, found) (ap (λ (front, rest). front ∷ fields more ys) found)

tokens-append :
    (line xs rest : List ℕ)
    → has newline xs ≡ false
    → tokens line (xs ++ (newline ∷ rest)) ≡ token (line ++ xs) (tokens [] rest)
tokens-append line [] rest e = rw (append-nil line) refl
tokens-append line (x ∷ xs) rest e =
    let other : x == newline ≡ false = ground arith in
    rw (tokens, other)
      (tokens-append (line ++ (x ∷ [])) xs rest (ground arith)
        ∙ ap (λ l. token l (tokens [] rest)) (append_assoc line (x ∷ []) xs))

take-all : (n : ℕ) (xs : List ℕ) → length xs ≤ n → take n xs ≡ xs
take-all zero [] le = refl
take-all zero (x ∷ xs) le = absurd (omega arith)
take-all (suc n) [] le = refl
take-all (suc n) (x ∷ xs) le = ap (λ ys. x ∷ ys) (take-all n xs (omega arith))

-- A text that does not stand in either of two parts, nor between them.
joined :
    (c d : ℕ) (xs ys : List ℕ)
    → c == d ≡ false
    → has c xs ≡ false
    → has c ys ≡ false
    → has c (xs ++ (d ∷ ys)) ≡ false
joined c d xs ys other e f = ground (arith, has-append c xs (d ∷ ys))

line-has :
    (c : ℕ) (u : User)
    → c == colon ≡ false
    → ((xs : List ℕ) → Plain xs → has c xs ≡ false)
    → IsEntry u
    → has c (line_of u) ≡ false
line-has c u other out h = joined c colon u.name _ other (out _ h.name) (
    joined c colon u.password _ other (out _ h.password) (
      joined c colon u.uid _ other (out _ h.uid) (
        joined c colon u.gid _ other (out _ h.gid) (
          joined c colon u.info _ other (out _ h.info)
            (joined c colon u.dir _ other (out _ h.dir) (out _ h.shell))))))

text-no_nul : (us : List User) → Entries us → has 0 (text_of us) ≡ false
text-no_nul [] h = refl
text-no_nul (u ∷ us) (h, hs) =
    joined 0 newline (line_of u) (text_of us) refl (line-has 0 u refl (λ xs (a, b, c). a) h)
      (text-no_nul us hs)

line-fields :
    (u : User)
    → IsEntry u
    → fields 6 (line_of u)
      ≡ u.name ∷ (u.password ∷ (u.uid ∷ (u.gid ∷ (u.info ∷ (u.dir ∷ (u.shell ∷ []))))))
line-fields u h = next 5 u.name _ h.name (
    next 4 u.password _ h.password (
      next 3 u.uid _ h.uid
        (next 2 u.gid _ h.gid (next 1 u.info _ h.info (next 0 u.dir _ h.dir refl)))))
  where
    next :
        (more : ℕ) (xs ys : List ℕ) {rest : List (List ℕ)}
        → Plain xs
        → fields more ys ≡ rest
        → fields (suc more) (xs ++ (colon ∷ ys)) ≡ xs ∷ rest
    next more xs ys (a, b, c) e = fields-suc more xs ys c ∙ ap (λ l. xs ∷ l) e

token-line : (u : User) (rest : List (List ℕ)) → token (line_of u) rest ≡ line_of u ∷ rest
token-line u rest =
    elim u.name
      as (λ n.
        token (line_of (record u { name = n })) rest ≡ line_of (record u { name = n }) ∷ rest) [
          | [] ↦ refl
          | c ∷ cs ↦ refl
        ]

text-tokens : (us : List User) → Entries us → tokens [] (text_of us) ≡ map line_of us
text-tokens [] h = refl
text-tokens (u ∷ us) (h, hs) =
    tokens-append [] (line_of u) (text_of us) (line-has newline u refl (λ xs (a, b, c). b) h)
    ∙ token-line u (tokens [] (text_of us))
    ∙ ap (λ l. line_of u ∷ l) (text-tokens us hs)

find_account-first :
    (number : List ℕ → ℕ) (uid : ℕ) (us : List User)
    → Entries us
    → find_account number uid (map line_of us) ≡ first_user number uid us
find_account-first number uid [] h = refl
find_account-first number uid (u ∷ us) (h, hs) =
    rw (find_account, line-fields u h)
      (elim (Bool-cases (id_of number u.uid == uid)) [
        | inl here ↦ rw here refl
        | inr other ↦ rw other (find_account-first number uid us hs)
      ])

-- Where /etc/passwd consists of entries of seven fields without NUL, newline and colon, and has at
-- most 8191 bytes, `get_name_gid_and_dir` finds the name, the group and the home directory of the
-- first entry with the user id, and nothing where no entry has it.
pub get_account-text_of :
    (number : List ℕ → ℕ) (uid : ℕ) (us : List User)
    → Entries us
    → length (text_of us) ≤ 8191
    → get_account number uid (some (text_of us)) ≡ first_user number uid us
unfolding get_account
get_account-text_of number uid us h fits =
    let whole : buffered (text_of us) ≡ text_of us =
      ap c_string (take-all 8191 (text_of us) fits)
      ∙ c_string-plain (text_of us) (text-no_nul us h) in
    ap (λ t. find_account number uid (tokens [] t)) whole
    ∙ ap (find_account number uid) (text-tokens us h)
    ∙ find_account-first number uid us h
