-- ===== src/Allocator/Buddy/Split.antt =====
-- A round of `splitBlockBuddy` on the lists: malloc_3.cpp.
use operating_systems_course.Prelude.{
  ℕ, suc, ◌+◌, ◌<◌, ◌≡◌, ◌≢◌, refl, true, false, some, List, [], ◌∷◌, arith, has, length, ap, ◌∙◌,
  eq→eqb, lt→ltb,
}
use operating_systems_course.Server.Run.{ok, ◌>>=◌, Returns, returns, bind, step, same, value_of}
use operating_systems_course.Allocator.{write, block_size, meta_size}
use operating_systems_course.Allocator.Links.Chain.{
  linked, Chain, insert, frame, in_above, load-some,
}
use operating_systems_course.Allocator.Links.Insert.{insert_block-Inserted}
use operating_systems_course.Allocator.Links.Remove.{remove_first-Removed}
use operating_systems_course.Allocator.Buddy.{
  Tracker, add, sub, free_meta, insert_free, remove_first_free, split_once,
}
use operating_systems_course.Allocator.Buddy.Sizes.{payload, block_size-ge, half_block}

-- The lists and the counters after a block `b` of order `k + 1` is split in two.
pub record IsSplit (t : Tracker) (k b : ℕ) (rest : List ℕ) (t' : Tracker) : Type 0 where
  pub halves : Chain (payload k) t'.heap 0 (t'.heads k) (b ∷ ((b + block_size k) ∷ []))
  pub others_left : Chain (payload (suc k)) t'.heap 0 (t'.heads (suc k)) rest
  pub heads : (j : ℕ) → j ≢ k → j ≢ suc k → t'.heads j ≡ t.heads j
  pub headers : (q : ℕ) → has q (b ∷ rest) ≡ false → q ≢ b + block_size k → t'.heap q ≡ t.heap q
  pub blocks : t'.allocated_blocks ≡ add t.allocated_blocks 1
  pub bytes : t'.allocated_bytes ≡ sub t.allocated_bytes meta_size
  pub metadata : t'.metadata_bytes ≡ add t.metadata_bytes meta_size
  pub started : t'.initialized ≡ t.initialized

-- The table with another heap and other heads.
abbrev pub Kept : Tracker → Tracker → Type 0
Kept t t' = t' ≡ record t { heap = t'.heap; heads = t'.heads }

-- A first block taken from the list of an order.
pub record IsTaken (t : Tracker) (s j b : ℕ) (rest : List ℕ) (out : Tracker × ℕ) : Type 0 where
  pub block : out.1 ≡ b
  pub list : Chain s out.0.heap 0 (out.0.heads j) rest
  pub header : out.0.heap b ≡ some (linked s 0 0)
  pub headers : (q : ℕ) → has q (b ∷ rest) ≡ false → out.0.heap q ≡ t.heap q
  pub heads : (i : ℕ) → i ≢ j → out.0.heads i ≡ t.heads i
  pub kept : Kept t out.0

pub remove_first_free-IsTaken :
    (t : Tracker) (s j b : ℕ) (rest : List ℕ)
    → Chain s t.heap 0 (t.heads j) (b ∷ rest)
    → Returns (IsTaken t s j b rest) (remove_first_free t j)
unfolding remove_first_free
remove_first_free-IsTaken t s j b rest c =
    bind (remove_first-Removed s t.heap (t.heads j) b rest c) λ (h, head, block) r.
      returns (record {
        block = r.block;
        list = rw (eq→eqb j j refl) (rw (eq→eqb b b refl) at r.chain);
        header = r.cleared;
        headers = r.others;
        heads = λ i n. ground arith;
        kept = refl;
      })

-- A block put into the list of an order.
pub record IsPut (t : Tracker) (s j b : ℕ) (xs : List ℕ) (t' : Tracker) : Type 0 where
  pub list : Chain s t'.heap 0 (t'.heads j) (insert b xs)
  pub headers : (q : ℕ) → q ≢ b → has q xs ≡ false → t'.heap q ≡ t.heap q
  pub heads : (i : ℕ) → i ≢ j → t'.heads i ≡ t.heads i
  pub kept : Kept t t'

pub insert_free-IsPut :
    (fuel : ℕ) (t : Tracker) (s j b nb pb : ℕ) (xs : List ℕ)
    → length xs < fuel
    → Chain s t.heap 0 (t.heads j) xs
    → 0 < b
    → t.heap b ≡ some (linked s nb pb)
    → has b xs ≡ false
    → Returns (IsPut t s j b xs) (insert_free fuel t j b)
unfolding insert_free
insert_free-IsPut fuel t s j b nb pb xs room c pos at_b new =
    bind (insert_block-Inserted fuel s t.heap (t.heads j) b nb pb xs room c pos at_b new)
      λ (h, head) r. returns (record {
        list = rw (eq→eqb j j refl) r.chain;
        headers = r.others;
        heads = λ i n. ground arith;
        kept = refl;
      })

-- The table with the headers of the two halves written.
abbrev halved : Tracker → (k b : ℕ) → Tracker
halved t k b = record t {
  heap =
      write (write t.heap b (free_meta (block_size k))) (b + block_size k)
        (free_meta (block_size k));
}

abbrev counted : Tracker → Tracker
counted t = record t {
  allocated_blocks = add t.allocated_blocks 1;
  allocated_bytes = sub t.allocated_bytes meta_size;
  metadata_bytes = add t.metadata_bytes meta_size;
}

split_once-run :
    (fuel : ℕ) (t t1 : Tracker) (k b : ℕ)
    → 0 < b
    → t1.heap b ≡ some (linked (payload (suc k)) 0 0)
    → remove_first_free t (suc k) ≡ ok (t1, b)
    → split_once fuel t k ≡ (
        insert_free fuel (halved t1 k b) k b >>= λ t2.
        insert_free fuel t2 k (b + block_size k) >>= λ t3. ok (counted t3))
unfolding split_once
split_once-run fuel t t1 k b pos at_b taken =
    step _ taken
    ∙ step _ (load-some t1.heap b (linked (payload (suc k)) 0 0) pos at_b)
    ∙ ap
        (λ total.
          insert_free fuel
            (record t1 {
              heap = write (write t1.heap b (free_meta total)) (b + total) (free_meta total);
            })
            k b
          >>= λ t2. insert_free fuel t2 k (b + total) >>= λ t3. ok (counted t3))
        (half_block k)

module _ (t t1 t3 t4 : Tracker) (k b : ℕ) (rest : List ℕ)
    (c : Chain (payload (suc k)) t.heap 0 (t.heads (suc k)) (b ∷ rest))
    (new : has (b + block_size k) rest ≡ false)
    (taken : IsTaken t (payload (suc k)) (suc k) b rest (t1, b))
    (left : IsPut (halved t1 k b) (payload k) k b [] t3)
    (put : IsPut t3 (payload k) k (b + block_size k) (b ∷ []) t4) where
  untouched : (q : ℕ) → q ≢ b → q ≢ b + block_size k → t4.heap q ≡ t1.heap q
  untouched q n1 n2 =
      put.headers q n2 (ground (arith, n1)) ∙ left.headers q n1 refl ∙ ground (arith, n1, n2)

  untouched_in : (q : ℕ) → has q rest ≡ true → t4.heap q ≡ t1.heap q
  untouched_in q q_in =
      let (_, _, (p, _, c')) = c in
      let above = in_above (payload (suc k)) t.heap b p q rest c' q_in in
      untouched q (λ z. absurd (omega arith)) (λ z. absurd (cc (rw z at q_in, new)))

  parts-IsSplit : IsSplit t k b rest (counted t4)
  parts-IsSplit =
      let big = block_size-ge k in
      record {
        halves = rw (lt→ltb b (b + block_size k) (omega arith)) at put.list;
        others_left =
            rw
              (
                put.heads (suc k) (λ z. absurd (omega arith)),
                left.heads (suc k) (λ z. absurd (omega arith)),
              )
              (frame (payload (suc k)) t1.heap t4.heap 0 (t1.heads (suc k)) rest
                (λ q above q_in. untouched_in q q_in) taken.list);
        heads = λ j n m. put.heads j n ∙ left.heads j n ∙ taken.heads j m;
        headers = λ q absent n. untouched q (ground (arith, eq→eqb q b)) n ∙ taken.headers q absent;
        blocks =
            ap (λ x. add x 1)
              (ap (λ x. x.allocated_blocks) put.kept
                ∙ ap (λ x. x.allocated_blocks) left.kept
                ∙ ap (λ x. x.allocated_blocks) taken.kept);
        bytes =
            ap (λ x. sub x meta_size)
              (ap (λ x. x.allocated_bytes) put.kept
                ∙ ap (λ x. x.allocated_bytes) left.kept
                ∙ ap (λ x. x.allocated_bytes) taken.kept);
        metadata =
            ap (λ x. add x meta_size)
              (ap (λ x. x.metadata_bytes) put.kept
                ∙ ap (λ x. x.metadata_bytes) left.kept
                ∙ ap (λ x. x.metadata_bytes) taken.kept);
        started =
            ap (λ x. x.initialized) put.kept
            ∙ ap (λ x. x.initialized) left.kept
            ∙ ap (λ x. x.initialized) taken.kept;
      }

-- A block of order `k + 1` is split into two free halves, where the list of order `k` is empty: it
-- then has the two, ascending, the other list has lost the block, and no other header has changed.
pub split_once-IsSplit :
    (fuel : ℕ) (t : Tracker) (k b : ℕ) (rest : List ℕ)
    → 1 < fuel
    → Chain (payload (suc k)) t.heap 0 (t.heads (suc k)) (b ∷ rest)
    → t.heads k ≡ 0
    → has (b + block_size k) rest ≡ false
    → Returns (IsSplit t k b rest) (split_once fuel t k)
split_once-IsSplit fuel t k b rest room c empty new =
    let (_, pos, _) = c in
    let ((t1, b'), runs, taken) =
      value_of (remove_first_free-IsTaken t (payload (suc k)) (suc k) b rest c) in
    let big = block_size-ge k in
    let t2 = halved t1 k b in
    let right = b + block_size k in
    same (split_once-run fuel t t1 k b pos taken.header (runs ∙ ap (λ x. ok (t1, x)) taken.block)) (
      bind
        (insert_free-IsPut fuel t2 (payload k) k b 0 0 [] (omega arith)
          (taken.heads k (λ z. absurd (omega arith)) ∙ empty) pos (ground arith) refl)
        λ t3 left.
          bind
            (insert_free-IsPut fuel t3 (payload k) k right 0 0 (b ∷ []) (omega arith) left.list
              (omega arith)
              (left.headers right (λ z. absurd (omega arith)) refl
                ∙ ground (arith, eq→eqb right right refl))
              (ground arith))
            λ t4 put. returns (parts-IsSplit t t1 t3 t4 k b rest c new (at_b taken) left put))
  where
    at_b :
        {out : Tracker × ℕ}
        → IsTaken t (payload (suc k)) (suc k) b rest out
        → IsTaken t (payload (suc k)) (suc k) b rest (out.0, b)
    at_b x = record {
      block = refl;
      list = x.list;
      header = x.header;
      headers = x.headers;
      heads = x.heads;
      kept = x.kept;
    }
