-- ===== src/Server/Log/Append.antt =====
-- The log keeps what is added to it, in order, and hands it out: log.c.
use mathlib.Core.List.{append-nil}
use operating_systems_course.Prelude.{
  ℕ, zero, suc, ◌+◌, ◌*◌, ◌-◌, ◌≤◌, ◌<◌, ◌≡◌, refl, ap, ◌∙◌, ◌⊎◌, inl, inr, List, [], ◌∷◌, ◌++◌,
  leb, length, length-append, take, take-append_of_le, ltb, arith, Bool-cases, Option, none, some,
}
use operating_systems_course.Server.Run.{ok, fault, ◌>>=◌, Returns, returns, bind, step}
use operating_systems_course.Server.Stats.{ThreadsStats, TimeStats}
use operating_systems_course.Server.Stats.Text.{stats_text}
use operating_systems_course.Server.Stats.Length.{
  Fits, append_stats_in_log-stats_text, length-stats_text,
}
use operating_systems_course.Server.Log.{
  Log, int, int_limit, make_room, append, add_to_log, copy_out, get_log, maxbuf,
}
use operating_systems_course.Server.Log.Buffer.{store-Stored, store-all, int_lem, double_lem}

-- The log holds a text: its bytes and a NUL stand at the front of the buffer, which has `capacity`
-- bytes.
pub record Holds (text : List ℕ) (l : Log) : Type 0 where
  pub front : take (l.text_length + 1) l.cells ≡ text ++ (0 ∷ [])
  pub size : length l.cells ≡ l.capacity
  pub counted : l.text_length ≡ length text
  pub room : l.text_length < l.capacity

-- What `realloc` does where there is memory: the bytes stay, and more follow them.
abbrev pub IsRealloc : (List ℕ → ℕ → Option (List ℕ)) → Type 0
IsRealloc realloc =
    (cells : List ℕ) (size : ℕ)
    → length cells ≤ size
    → (more : List ℕ) × (realloc cells size ≡ some (cells ++ more))
      × (length (cells ++ more) ≡ size)

take-grown :
    (n : ℕ) (cells more : List ℕ) → n ≤ length cells → take n (cells ++ more) ≡ take n cells
take-grown zero cells more le = refl
take-grown (suc n) [] more le = absurd (omega arith)
take-grown (suc n) (c ∷ cells) more le = ap (λ t. c ∷ t) (take-grown n cells more (omega arith))

take-take : (n : ℕ) (xs : List ℕ) → take n xs ≡ take n (take (suc n) xs)
take-take zero xs = refl
take-take (suc n) [] = refl
take-take (suc n) (x ∷ xs) = ap (λ t. x ∷ t) (take-take n xs)

-- The text without the NUL.
take-text :
    (n : ℕ) (cells text : List ℕ)
    → take (n + 1) cells ≡ text ++ (0 ∷ [])
    → n ≡ length text
    → take n cells ≡ text
take-text n cells text front counted =
    let none_left : n - length text ≡ 0 = omega arith in
    let one_more : suc n ≡ n + 1 = omega arith in
    take-take n cells
    ∙ ap (λ m. take n (take m cells)) one_more
    ∙ ap (take n) front
    ∙ take-append_of_le n text (0 ∷ []) (omega arith)
    ∙ ap (λ k. text ++ take k (0 ∷ [])) none_left
    ∙ append-nil text

module _ (realloc : List ℕ → ℕ → Option (List ℕ)) (has_memory : IsRealloc realloc) where
  -- The log holds the text still, with room for `need` bytes and one more.
  record Roomy (need : ℕ) (text : List ℕ) (l l' : Log) : Type 0 where
    pub holds : Holds text l'
    pub above : need < l'.capacity
    pub grows : l.capacity ≤ l'.capacity
    pub limit : (l'.capacity ≡ l.capacity) ⊎ (l'.capacity ≤ 2 * need)

  grown-Roomy :
      (need : ℕ) (text : List ℕ) (l : Log) (c : ℕ)
      → Holds text l
      → need < c
      → l.capacity ≤ c
      → (c ≡ l.capacity) ⊎ (c ≤ 2 * need)
      → Returns (Roomy need text l) (elim (realloc l.cells c) [
        | none ↦ fault
        | some cells ↦ ok (record l { cells = cells; capacity = c })
      ])
  grown-Roomy need text l c h above grows limit =
      let (more, gives, size) = has_memory l.cells c (omega (arith, h.size)) in
      rw gives (
        returns (record {
          holds = record {
            front =
                take-grown (l.text_length + 1) l.cells more (omega (arith, h.size, h.room))
                ∙ h.front;
            size = size;
            counted = h.counted;
            room = omega (arith, h.room);
          };
          above = above;
          grows = grows;
          limit = limit;
        }))

  make_room-Roomy :
      (need : ℕ) (text : List ℕ) (l : Log)
      → Holds text l
      → need * 2 < int_limit
      → Returns (Roomy need text l) (make_room realloc need l)
  unfolding make_room
  make_room-Roomy need text l h in_range = elim (Bool-cases (leb l.capacity need)) [
    | inl small ↦ rw small (
        bind
          (double_lem (suc need) need l.capacity (omega (arith, h.room)) (omega (arith, h.room))
            (omega arith) in_range)
          λ c (above, grows, limit). grown-Roomy need text l c h above grows limit)
    | inr large ↦ rw large (
        returns (record { holds = h; above = ground arith; grows = omega arith; limit = inl refl }))
  ]

  -- `append` puts an entry behind the text, below 2^30 bytes. Its buffer grows only where it must, and
  -- then at most to twice what is needed.
  pub append-Holds :
      (entry text : List ℕ) (l : Log)
      → Holds text l
      → (length (text ++ entry) + 1) * 2 < int_limit
      → Returns
          (λ l'.
            Holds (text ++ entry) l'
            × (l.capacity ≤ l'.capacity)
            × ((l'.capacity ≡ l.capacity) ⊎ (l'.capacity ≤ 2 * (length (text ++ entry) + 1))))
          (append realloc entry l)
  unfolding append
  append-Holds entry text l h in_range =
      let n = length-append text entry in
      let need = l.text_length + length entry + 1 in
      let small : need * 2 < int_limit = omega (arith, h.counted, n) in
      rw (int_lem need (omega (arith, small))) (
        bind (make_room-Roomy need text l h small) λ roomy r.
          let k = r.holds in
          bind
            (store-Stored roomy.text_length entry roomy.cells
              (omega (arith, k.size, k.counted, h.counted, r.above)))
            λ cells first.
              bind
                (store-Stored (roomy.text_length + length entry) (0 ∷ []) cells
                  (omega (arith, first.size, k.size, k.counted, h.counted, r.above)))
                λ cells' second. returns (
                  record {
                    front =
                        second.front
                        ∙ ap (λ t. t ++ (0 ∷ []))
                            (first.front
                              ∙ ap (λ t. t ++ entry)
                                  (take-text roomy.text_length roomy.cells text k.front k.counted));
                    size = second.size ∙ first.size ∙ k.size;
                    counted = omega (arith, length-append text entry, k.counted);
                    room = omega (arith, k.counted, h.counted, r.above);
                  },
                  r.grows,
                  ground (arith, r.limit, h.counted, length-append text entry),
                ))

  -- Where the log stays below 2^30 bytes, `add_to_log` puts the statistics and a newline behind its
  -- text, without a fault: the entry fits its own buffer, and the buffer of the log suffices. That
  -- one grows only where it must, and then at most to twice what is needed.
  pub add_to_log-Holds :
      (t : ThreadsStats) (tm : TimeStats) (text : List ℕ) (l : Log)
      → Fits t tm
      → Holds text l
      → (length (text ++ (stats_text t tm ++ (10 ∷ []))) + 1) * 2 < int_limit
      → Returns
          (λ l'.
            Holds (text ++ (stats_text t tm ++ (10 ∷ []))) l'
            × (l.capacity ≤ l'.capacity)
            × ((l'.capacity ≡ l.capacity)
                ⊎ (l'.capacity ≤ 2 * (length (text ++ (stats_text t tm ++ (10 ∷ []))) + 1))))
          (add_to_log realloc t tm l)
  unfolding add_to_log
  add_to_log-Holds t tm text l f h in_range =
      rw (append_stats_in_log-stats_text maxbuf [] t tm f (omega arith))
        (elim (Bool-cases (ltb (length (stats_text t tm)) maxbuf)) [
          | inl fits ↦ rw fits (append-Holds (stats_text t tm ++ (10 ∷ [])) text l h in_range)
          | inr beyond ↦ absurd (ground (arith, length-stats_text t tm f))
        ])

copy_out-Holds :
    (text dst : List ℕ) (l : Log)
    → Holds text l
    → length dst ≡ length text + 1
    → copy_out l (some dst) ≡ ok (text ++ (0 ∷ []), length text)
unfolding copy_out
copy_out-Holds text dst l h size = elim (Bool-cases (leb (l.text_length + 1) (length l.cells))) [
  | inl inside ↦
      rw
        (
          inside,
          h.front,
          store-all (text ++ (0 ∷ [])) dst (omega (arith, length-append text (0 ∷ []))),
        )
        (ap (λ n. ok (text ++ (0 ∷ []), n)) h.counted)
  | inr beyond ↦ absurd (ground (arith, h.size, h.room))
]

-- `get_log` hands out the text with its NUL, and its length, where `malloc` has memory for them and
-- their number is an `int`.
pub get_log-Holds :
    (malloc : ℕ → Option (List ℕ)) (text dst : List ℕ) (l : Log)
    → Holds text l
    → malloc (length text + 1) ≡ some dst
    → length dst ≡ length text + 1
    → length text + 1 < int_limit
    → get_log malloc l ≡ ok (text ++ (0 ∷ []), length text)
unfolding get_log
get_log-Holds malloc text dst l h gives size in_range =
    ap (λ n. int (n + 1) >>= λ room. copy_out l (malloc room)) h.counted
    ∙ step _ (int_lem (length text + 1) in_range)
    ∙ ap (copy_out l) gives
    ∙ copy_out-Holds text dst l h size
