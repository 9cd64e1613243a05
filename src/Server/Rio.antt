-- ===== src/Server/Rio.antt =====
-- The robust I/O of hw03-multithreaded-web-server/segel.c: `rio_readn`, `rio_writen`, and the
-- buffered `rio_read`, `rio_readnb` and `rio_readlineb`.
--
-- `read` and `write` are the operating system's: parameters, with what POSIX says of them as laws.
-- Each loop takes fuel, and the laws bound how often a call is interrupted.
mod Laws
mod Read
mod Line
mod Block
mod Write
mod Tests
use operating_systems_course.Prelude.{
  ℕ, zero, suc, ◌+◌, ◌-◌, ◌≡◌, Bool, true, false, List, [], ◌∷◌, ◌++◌, ◌==◌, ltb, if◌then◌else◌,
  length, take, drop,
}

-- What a `read` or `write` answers: bytes, end of file, -1 with errno EINTR, or another error.
pub data Reply (A : Type 0) : Type 0 where
  got : A → Reply A
  eof : Reply A
  interrupted : Reply A
  failed : Reply A

-- A function of the package: its value, -1, or no end within the fuel.
pub data Io (A : Type 0) : Type 0 where
  done : A → Io A
  io_error : Io A
  out_of_fuel : Io A

abbrev pub and_then : {A B : Type 0} → Io A → (A → Io B) → Io B
and_then (done a) f = f a
and_then io_error f = io_error
and_then out_of_fuel f = out_of_fuel

-- A descriptor open for reading: its state, and `read(fd, buf, n)` with the bytes put in `buf`.
pub record Source : Type 1 where
  pub State : Type 0
  pub read : ℕ → State → Reply (List ℕ) × State

-- A descriptor open for writing: `write(fd, buf, n)` with the bytes of `buf`, and how many it took;
-- `eof` where it took none. `errno_is_eintr` tells what is in `errno`, which only an error sets.
pub record Sink : Type 1 where
  pub State : Type 0
  pub write : List ℕ → State → Reply ℕ × State
  pub errno_is_eintr : State → Bool

abbrev pub rio_bufsize : ℕ
rio_bufsize = 8192

abbrev pub newline : ℕ
newline = 10

-- The body of the loop of `rio_readn` behind the call of `read`; `again` is the next round.
pub after_read :
    {State : Type 0} (again : ℕ → State → List ℕ → Io (List ℕ × State))
    → Reply (List ℕ)
    → (nleft : ℕ) → State
    → List ℕ
    → Io (List ℕ × State)
after_read again (got bs) nleft s acc = again (nleft - length bs) s (acc ++ bs)
after_read again eof nleft s acc = done (acc, s)
after_read again interrupted nleft s acc = again nleft s acc
after_read again failed nleft s acc = io_error

module _ (S : Source) where
  open S use {State, read}

  -- `nleft` bytes are still wanted, `acc` are in the caller's buffer.
  pub rio_readn_loop : (fuel nleft : ℕ) → State → (acc : List ℕ) → Io (List ℕ × State)
  rio_readn_loop zero nleft s acc = out_of_fuel
  rio_readn_loop (suc fuel) nleft s acc =
      let (reply, s') = read nleft s in
      if nleft == 0 then done (acc, s) else after_read (rio_readn_loop fuel) reply nleft s' acc

  pub rio_readn : (fuel n : ℕ) → State → Io (List ℕ × State)
  unfolding rio_readn_loop
  rio_readn fuel n s = rio_readn_loop fuel n s []

  -- `rio_t` with the descriptor's state: `unread` are the `rio_cnt` bytes from `rio_bufptr` on, none
  -- where `rio_cnt` is 0 or -1.
  pub record Rio : Type 0 where
    pub unread : List ℕ
    pub state : State

  pub rio_readinitb : State → Rio
  rio_readinitb s = record { unread = []; state = s }

  -- The body of the refill loop of `rio_read` behind the call of `read`.
  pub after_refill : (again : Rio → Io Rio) → Reply (List ℕ) → State → Io Rio
  after_refill again (got bs) s = done (record { unread = bs; state = s })
  after_refill again eof s = done (record { unread = []; state = s })
  after_refill again interrupted s = again (record { unread = []; state = s })
  after_refill again failed s = io_error

  -- The refill loop; it ends with no unread byte at end of file.
  pub refill : (fuel : ℕ) → Rio → Io Rio
  refill zero r = out_of_fuel
  refill (suc fuel) r = elim r.unread [
    | b ∷ bs ↦ done r
    | [] ↦ let (reply, s') = read rio_bufsize r.state in after_refill (refill fuel) reply s'
  ]

  -- Up to `n` bytes; none at end of file.
  pub rio_read : (fuel : ℕ) → Rio → (n : ℕ) → Io (List ℕ × Rio)
  rio_read fuel r n =
      and_then (refill fuel r)
        λ r'. done (take n r'.unread, record r' { unread = drop n r'.unread })

  -- The body of the `for` of `rio_readlineb` behind the call of `rio_read`, which gave `bs`.
  pub after_byte :
      (again : ℕ → List ℕ → Rio → Io (ℕ × List ℕ × Rio)) (n : ℕ) (acc bs : List ℕ)
      → Rio
      → Io (ℕ × List ℕ × Rio)
  after_byte again n acc [] r = if n == 1 then done (0, [], r) else done (n, acc, r)
  after_byte again n acc (c ∷ rest) r = elim (c == newline) [
    | true ↦ done (n, acc ++ (c ∷ []), r)
    | false ↦ again (n + 1) (acc ++ (c ∷ [])) r
  ]

  -- The `for` of `rio_readlineb`, with `rounds` = `maxlen - n` left; `acc` is in the caller's buffer.
  -- At end of file before the first byte the result is 0, and the buffer is not written.
  pub rio_readlineb_loop : (fuel rounds n : ℕ) → (acc : List ℕ) → Rio → Io (ℕ × List ℕ × Rio)
  rio_readlineb_loop fuel zero n acc r = done (n, acc, r)
  rio_readlineb_loop fuel (suc rounds) n acc r =
      and_then (rio_read fuel r 1)
        λ (bs, r'). after_byte (rio_readlineb_loop fuel rounds) n acc bs r'

  pub rio_readlineb : (fuel : ℕ) → Rio → (maxlen : ℕ) → Io (ℕ × List ℕ × Rio)
  rio_readlineb fuel r maxlen = rio_readlineb_loop fuel (maxlen - 1) 1 [] r

  -- `rio_readnb`: `nleft` bytes are still wanted.
  pub rio_readnb_loop : (fuel nleft : ℕ) → Rio → (acc : List ℕ) → Io (List ℕ × Rio)
  rio_readnb_loop zero nleft r acc = out_of_fuel
  rio_readnb_loop (suc fuel) nleft r acc =
      if nleft == 0
      then done (acc, r)
      else (and_then (rio_read (suc fuel) r nleft) λ (bs, r'). elim bs [
        | [] ↦ done (acc, r')
        | b ∷ rest ↦ rio_readnb_loop fuel (nleft - length (b ∷ rest)) r' (acc ++ (b ∷ rest))
      ])

  pub rio_readnb : (fuel : ℕ) → Rio → (n : ℕ) → Io (List ℕ × Rio)
  rio_readnb fuel r n = rio_readnb_loop fuel n r []

-- The body of the loop of `rio_writen` behind the call of `write`; `again` is the next round.
pub after_write :
    {State : Type 0} (errno_is_eintr : State → Bool) (again : List ℕ → State → Io State)
    → Reply ℕ
    → (bs : List ℕ) → State
    → Io State
after_write errno_is_eintr again (got n) bs s = again (drop n bs) s
after_write errno_is_eintr again eof bs s = elim (errno_is_eintr s) [
  | true ↦ again bs s
  | false ↦ io_error
]
after_write errno_is_eintr again interrupted bs s = again bs s
after_write errno_is_eintr again failed bs s = io_error

module _ (S : Sink) where
  open S use {State, write, errno_is_eintr}

  -- `bs` are the bytes still to be written.
  pub rio_writen_loop : (fuel : ℕ) → (bs : List ℕ) → State → Io State
  rio_writen_loop zero bs s = out_of_fuel
  rio_writen_loop (suc fuel) [] s = done s
  rio_writen_loop (suc fuel) (b ∷ bs) s =
      let (reply, s') = write (b ∷ bs) s in
      after_write errno_is_eintr (rio_writen_loop fuel) reply (b ∷ bs) s'

  pub rio_writen : (fuel : ℕ) → (bs : List ℕ) → State → Io State
  unfolding rio_writen_loop
  rio_writen fuel bs s = rio_writen_loop fuel bs s
