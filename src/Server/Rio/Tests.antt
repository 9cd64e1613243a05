-- ===== src/Server/Rio/Tests.antt =====
-- Descriptors that deliver two bytes at a time, or take one, after an interruption.
use operating_systems_course.Prelude.{
  ℕ, zero, suc, ◌+◌, ◌≤◌, ◌≡◌, refl, false, List, [], ◌∷◌, ◌++◌, arith, length, take, if◌then◌else◌,
}
use operating_systems_course.Server.Rio.{
  Reply, got, eof, interrupted, done, Source, Sink, Rio, rio_readn, rio_readlineb,
  rio_readlineb_loop, rio_read, refill, after_refill, after_byte, rio_writen, rio_readnb,
}
use operating_systems_course.Server.Rio.Laws.{
  Ends, Reads, reads, ends, waits, IsPosix, Writes, writes, IsPosixSink,
}
use operating_systems_course.Server.Rio.Read.{pending, rio_readn-take}
use operating_systems_course.Server.Rio.Block.{rio_readnb-take}
use operating_systems_course.Server.Rio.Line.{line_of, ends_line, rio_readlineb_lem}
use operating_systems_course.Server.Rio.Write.{rio_writen-sent}

-- Bytes to come, and interruptions to come before them.
record Wire : Type 0 where
  pub bytes : List ℕ
  pub signals : ℕ

abbrev read_wire : (bytes : List ℕ) (signals n : ℕ) → Reply (List ℕ) × Wire
read_wire bytes (suc k) n = (interrupted, record { bytes = bytes; signals = k })
read_wire [] zero n = (eof, record { bytes = []; signals = 0 })
read_wire (b ∷ []) zero n = (got (b ∷ []), record { bytes = []; signals = 0 })
read_wire (b ∷ (c ∷ bs)) zero zero = (got (b ∷ []), record { bytes = c ∷ bs; signals = 0 })
read_wire (b ∷ (c ∷ bs)) zero (suc zero) = (got (b ∷ []), record { bytes = c ∷ bs; signals = 0 })
read_wire (b ∷ (c ∷ bs)) zero (suc (suc n)) =
    (got (b ∷ (c ∷ [])), record { bytes = bs; signals = 0 })

abbrev wire : Source
wire = record { State = Wire; read = λ n s. read_wire s.bytes s.signals n }

read_wire-Reads :
    (bytes : List ℕ) (signals n : ℕ)
    → 1 ≤ n
    → Reads
        (λ s. Wire.bytes s)
        (λ s. Wire.signals s)
        (λ s. ⊥)
        n
        (record { bytes = bytes; signals = signals })
        (read_wire bytes signals n)
read_wire-Reads bytes (suc k) n pos = waits refl (omega arith) (λ z. z)
read_wire-Reads [] zero n pos = ends refl refl (omega arith) (λ z. z)
read_wire-Reads (b ∷ []) zero n pos = reads (omega arith) refl (omega arith) (λ z. z)
read_wire-Reads (b ∷ (c ∷ bs)) zero zero pos = absurd (omega arith)
read_wire-Reads (b ∷ (c ∷ bs)) zero (suc zero) pos = reads (omega arith) refl (omega arith) (λ z. z)
read_wire-Reads (b ∷ (c ∷ bs)) zero (suc (suc n)) pos =
    reads (omega arith) refl (omega arith) (λ z. z)

abbrev wire-IsPosix : IsPosix wire
wire-IsPosix = record {
  contents = λ s. Wire.bytes s;
  patience = λ s. Wire.signals s;
  IsBroken = λ s. ⊥;
  reply = λ n s pos. read_wire-Reads s.bytes s.signals n pos;
}

-- `hi`, a newline, and `x`; three interruptions first.
abbrev line_and_more : Wire
line_and_more = record { bytes = 104 ∷ (105 ∷ (10 ∷ (120 ∷ []))); signals = 3 }

abbrev reader : Rio wire
reader = record { unread = 71 ∷ []; state = line_and_more }

rio_readn-take_example :
    Ends ⊥
      (λ (bs, s'). (bs ≡ 104 ∷ (105 ∷ (10 ∷ []))) × (Wire.bytes s' ≡ 120 ∷ []))
      (rio_readn wire 7 3 line_and_more)
rio_readn-take_example = rio_readn-take wire wire-IsPosix 7 3 line_and_more (omega arith)

seven_buffered :
    Ends ⊥
      (λ (bs, r').
        (bs ≡ 71 ∷ (104 ∷ (105 ∷ []))) × (pending wire wire-IsPosix r' ≡ 10 ∷ (120 ∷ [])))
      (rio_readnb wire 7 reader 3)
seven_buffered = rio_readnb-take wire wire-IsPosix 7 3 reader (omega arith)

rio_readlineb_lem_example :
    Ends ⊥
      (λ (n, stored, r').
        (stored ≡ 71 ∷ (104 ∷ (105 ∷ (10 ∷ []))))
        × (71 ∷ (104 ∷ (105 ∷ (10 ∷ (120 ∷ [])))) ≡ stored ++ pending wire wire-IsPosix r')
        × (n ≡ (if ends_line stored then length stored else length stored + 1)))
      (rio_readlineb wire 4 reader 100)
unfolding line_of
rio_readlineb_lem_example =
    rio_readlineb_lem wire wire-IsPosix 4 100 reader (omega arith) (omega arith)

-- The last line of a stream, without a newline: two bytes are stored, and the result is 3.
last_line :
    rio_readlineb wire 1
      (record { unread = []; state = record { bytes = 104 ∷ (105 ∷ []); signals = 0 } })
      100
    ≡ done (3, 104 ∷ (105 ∷ []), record { unread = []; state = record { bytes = []; signals = 0 } })
unfolding rio_readlineb rio_readlineb_loop rio_read refill after_refill after_byte
last_line = refl

-- What went out, and interruptions to come.
record Outlet : Type 0 where
  pub out : List ℕ
  pub signals : ℕ

abbrev write_outlet : List ℕ → (out : List ℕ) (signals : ℕ) → Reply ℕ × Outlet
write_outlet bs out (suc k) = (interrupted, record { out = out; signals = k })
write_outlet bs out zero = (got 1, record { out = out ++ take 1 bs; signals = 0 })

abbrev outlet : Sink
outlet = record {
  State = Outlet;
  write = λ bs s. write_outlet bs s.out s.signals;
  errno_is_eintr = λ s. false;
}

write_outlet-Writes :
    (bs out : List ℕ) (signals : ℕ)
    → 1 ≤ length bs
    → Writes
        (λ s. Outlet.out s)
        (λ s. Outlet.signals s)
        (λ s. ⊥)
        bs
        (record { out = out; signals = signals })
        (write_outlet bs out signals)
write_outlet-Writes bs out (suc k) pos = waits refl (omega arith) (λ z. z)
write_outlet-Writes bs out zero pos = writes (omega arith) pos refl (omega arith) (λ z. z)

abbrev outlet-IsPosixSink : IsPosixSink outlet
outlet-IsPosixSink = record {
  sent = λ s. Outlet.out s;
  patience = λ s. Outlet.signals s;
  IsBroken = λ s. ⊥;
  reply = λ bs s pos. write_outlet-Writes bs s.out s.signals pos;
}

rio_writen-sent_example :
    Ends ⊥
      (λ s'. Outlet.out s' ≡ 1 ∷ (2 ∷ (3 ∷ (4 ∷ []))))
      (rio_writen outlet 6 (2 ∷ (3 ∷ (4 ∷ []))) (record { out = 1 ∷ []; signals = 2 }))
rio_writen-sent_example =
    rio_writen-sent outlet outlet-IsPosixSink 6 (2 ∷ (3 ∷ (4 ∷ [])))
      (record { out = 1 ∷ []; signals = 2 }) (omega arith)
