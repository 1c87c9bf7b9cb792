-- ===== src/DownPath/Parts.antt =====
-- `Read` hands on the chunks of the destination in their order.
use tamizdat.DownPath.Chunks.{joined, Part, get_elem?-lt, take_over, joined_next, nil_of}
use tamizdat.DownPath.Receiver.{
  DownResult, Receiver, Head, holds, at_eof, waits, is_at, look, take_result, round_from, read_loop,
  hand_out, read,
}
use tamizdat.Prelude.Assoc.{
  Assoc, lookup, insert, erase, lookup-insert_self, lookup-insert_ne, lookup-erase, erase-Distinct,
  insert-Distinct, Distinct,
}
use tamizdat.Prelude.Bytes.{Bytes}
use tamizdat.Prelude.{
  ℕ, Bool, List, Option, none, some, ◌∷◌, [], ◌++◌, length, take, ltb, ◌==◌, if◌then◌else◌, ◌||◌,
  get_elem?, ◌%◌, ◌^◌, ◌+◌, suc, true, false, arith, ◌≡◌, ◌≤◌, ◌<◌, ◌⊎◌, refl, sym, ap, ◌∙◌,
  Bool-cases, Option-cases, inl, inr, append_assoc, append-nil, All, drop, take-append-drop,
}
use native.Mathlib.Decide.{ℕ_discrete}

is_at-some : (n : ℕ) (o : Option ℕ) → is_at n o ≡ true → o ≡ some n
is_at-some n none e = absurd (cc)
is_at-some n (some m) e = ap (λ (k : ℕ). some k) (ground arith)

module _ (chunks : List Bytes) (stopped : Bool) where
  -- What the receiver has, behind the bytes that were read already.
  pub record IsInOrder (log : Bytes) (r : Receiver) : Type 0 where
    pub order : log ++ r.read_buf ≡ joined (take r.next_seq chunks)
    pub stored : (k : ℕ) (b : Bytes) → lookup k r.pending ≡ some b → get_elem? chunks k ≡ some b
    pub keys : Distinct r.pending
    pub ends : (m : ℕ) → r.eof_seq ≡ some m → (m ≡ length chunks) × (stopped ≡ true)
    pub bound : r.next_seq ≤ suc (length chunks)
    pub open_bound : (stopped ≡ true) ⊎ (r.next_seq ≤ length chunks)

  abbrev pub IsPart : DownResult → Type 0
  IsPart res = Part chunks stopped res.seq res.buf res.eof

  -- The next chunk becomes the buffer.
  next_chunk :
      (log b : Bytes) (r : Receiver) (more : Assoc Bytes)
      → suc (length chunks) < 2 ^ 32
      → IsInOrder log r
      → length r.read_buf ≡ 0
      → get_elem? chunks r.next_seq ≡ some b
      → ((k : ℕ) (c : Bytes) → lookup k more ≡ some c → get_elem? chunks k ≡ some c)
      → Distinct more
      → IsInOrder log
          (record r { read_buf = b; pending = more; next_seq = (r.next_seq + 1) % 2 ^ 32 })
  next_chunk log b r more few k e g st d =
      let lt = get_elem?-lt chunks r.next_seq b g in
      let step : (r.next_seq + 1) % 2 ^ 32 ≡ suc r.next_seq = omega arith in
      let base : log ≡ joined (take r.next_seq chunks) =
        sym (append-nil log) ∙ ap (λ (t : Bytes). log ++ t) (sym (nil_of r.read_buf e)) ∙ k.order in
      record {
        order =
            ap (λ (t : Bytes). t ++ b) base
            ∙ sym (joined_next chunks r.next_seq b g)
            ∙ ap (λ (n : ℕ). joined (take n chunks)) (sym step);
        stored = st;
        keys = d;
        ends = k.ends;
        bound = rw step (omega arith);
        open_bound = inr (rw step lt);
      }

  -- What holds at the end of a loop of `Read`.
  abbrev pub Ended : Receiver → Head → Type 0
  Ended r holds = Unit {0}
  Ended r at_eof = (length r.read_buf ≡ 0) × (length chunks ≤ r.next_seq) × (stopped ≡ true)
  Ended r waits = length r.read_buf ≡ 0

  past_end :
      (log : Bytes) (r : Receiver)
      → suc (length chunks) < 2 ^ 32
      → IsInOrder log r
      → length r.read_buf ≡ 0
      → r.eof_seq ≡ some r.next_seq
      → let t : Receiver = record r { next_seq = (r.next_seq + 1) % 2 ^ 32 } in
        IsInOrder log t × Ended t at_eof
  past_end log r few k e g =
      let (here, st) = k.ends r.next_seq g in
      let step : (r.next_seq + 1) % 2 ^ 32 ≡ suc r.next_seq = omega arith in
      let same : take (suc r.next_seq) chunks ≡ take r.next_seq chunks =
        take_over (suc r.next_seq) chunks (omega arith)
        ∙ sym (take_over r.next_seq chunks (omega arith)) in
      (
        record {
          order = rw (step, same) k.order;
          stored = k.stored;
          keys = k.keys;
          ends = k.ends;
          bound = rw step (omega arith);
          open_bound = inl st;
        },
        (e, rw step (omega arith), st),
      )

  look_lem :
      (log : Bytes) (r : Receiver)
      → suc (length chunks) < 2 ^ 32
      → IsInOrder log r
      → IsInOrder log (look r).0 × Ended (look r).0 (look r).1
  unfolding look
  look_lem log r few k = elim (Bool-cases (length r.read_buf == 0)) [
    | inr e ↦ rw e (k, tt)
    | inl e ↦
        let empty : length r.read_buf ≡ 0 = ground arith in
        elim (Option-cases (lookup r.next_seq r.pending)) [
          | inr (buf, f) ↦
              rw (e, f)
                (
                  next_chunk log buf r (erase r.next_seq r.pending) few k empty
                      (k.stored r.next_seq buf f)
                      (λ j c q.
                        ground (arith, lookup-erase r.next_seq j r.pending k.keys, k.stored j c))
                      (erase-Distinct r.next_seq r.pending k.keys),
                  tt,
                )
          | inl f ↦ elim (Bool-cases (is_at r.next_seq r.eof_seq)) [
            | inl g ↦ rw (e, f, g) (past_end log r few k empty (is_at-some r.next_seq r.eof_seq g))
            | inr g ↦ rw (e, f, g) (k, empty)
          ]
        ]
  ]

  abbrev Kept : Bytes → Receiver × Bool → Type 0
  Kept log x = IsInOrder log x.0 × (x.1 ≡ true → Ended x.0 at_eof)

  either-Kept :
      (log : Bytes) (b : Bool) (x y : Receiver × Bool)
      → Kept log x
      → Kept log y
      → Kept log (if b then x else y)
  either-Kept log true x y k l = k
  either-Kept log false x y k l = l

  stored_part :
      (log : Bytes) (res : DownResult) (r : Receiver)
      → IsInOrder log r
      → get_elem? chunks res.seq ≡ some res.buf
      → IsInOrder log (record r { pending = insert res.seq res.buf r.pending })
  stored_part log res r k b = record {
    order = k.order;
    stored = λ j c q. elim (ℕ_discrete res.seq j) [
      | yes same ↦
          let found : get_elem? chunks j ≡ some res.buf = rw (← same) b in
          let here : lookup j (insert res.seq res.buf r.pending) ≡ some res.buf =
            rw same (lookup-insert_self j res.buf r.pending) in
          found ∙ sym here ∙ q
      | no other ↦ k.stored j c (sym (lookup-insert_ne res.seq j res.buf r.pending other) ∙ q)
    ];
    keys = insert-Distinct res.seq res.buf r.pending k.keys;
    ends = k.ends;
    bound = k.bound;
    open_bound = k.open_bound;
  }

  take_result_lem :
      (log : Bytes) (res : DownResult) (r : Receiver)
      → suc (length chunks) < 2 ^ 32
      → IsInOrder log r
      → length r.read_buf ≡ 0
      → IsPart res
      → Kept log (take_result res r)
  unfolding take_result
  take_result_lem log res r few k e (inr (a, b, c)) = elim (Bool-cases (ltb res.seq r.next_seq)) [
    | inl g ↦ rw (a, g) (k, λ q. (e, ground arith, c))
    | inr g ↦
        rw (a, g)
          (
            record {
              order = k.order;
              stored = k.stored;
              keys = k.keys;
              ends = λ m q. (let same : res.seq ≡ m = cc in sym same ∙ b, c);
              bound = k.bound;
              open_bound = k.open_bound;
            },
            λ q. absurd (cc),
          )
  ]
  take_result_lem log res r few k e (inl (a, b)) =
      elim (Bool-cases (length res.buf == 0 || ltb res.seq r.next_seq)) [
        | inl g ↦ rw (a, g) (k, λ q. absurd (cc))
        | inr g ↦ elim (Bool-cases (res.seq == r.next_seq)) [
          | inl h ↦
              let here : res.seq ≡ r.next_seq = ground arith in
              rw (a, g, h)
                (
                  next_chunk log res.buf r r.pending few k e (rw (← here) b) k.stored k.keys,
                  λ q. absurd (cc),
                )
          | inr h ↦
              rw (a, g, h)
                (either-Kept log _ (record r { pending = insert res.seq res.buf r.pending }, false)
                  (r, false) (stored_part log res r k b, λ q. absurd (cc)) (k, λ q. absurd (cc)))
        ]
      ]

  -- What holds of the end of the loop.
  abbrev pub Read : Bytes → (Receiver × List DownResult) × Head → Type 0
  Read log o = IsInOrder log o.0.0 × Ended o.0.0 o.1 × All IsPart o.0.1

  either-Read :
      (log : Bytes) (b : Bool) (x y : (Receiver × List DownResult) × Head)
      → (b ≡ true → Read log x)
      → Read log y
      → Read log (if b then x else y)
  either-Read log true x y k l = k refl
  either-Read log false x y k l = l

  round_from_lem :
      (log : Bytes) (h : Head) (r : Receiver) (res : DownResult) (more : List DownResult)
      (taken : Receiver × Bool) (rest : (Receiver × List DownResult) × Head)
      → IsInOrder log r
      → Ended r h
      → IsPart res × All IsPart more
      → (length r.read_buf ≡ 0 → Kept log taken × Read log rest)
      → Read log (round_from h r res more taken rest)
  unfolding round_from
  round_from_lem log holds r res more taken rest k e a f = (k, e, a)
  round_from_lem log at_eof r res more taken rest k e a f = (k, e, a)
  round_from_lem log waits r res more taken rest k e a f =
      let (t, u) = f e in
      either-Read log taken.1 ((taken.0, more), at_eof) rest (λ q. (t.0, t.1 q, a.1)) u

  read_loop_lem :
      (log : Bytes) (results : List DownResult) (r : Receiver)
      → suc (length chunks) < 2 ^ 32
      → IsInOrder log r
      → All IsPart results
      → Read log (read_loop results r)
  unfolding read_loop
  read_loop_lem log [] r few k a = let (k1, e) = look_lem log r few k in (k1, e, tt)
  read_loop_lem log (res ∷ more) r few k (a, b) =
      let (k1, e) = look_lem log r few k in
      let taken = take_result res (look r).0 in
      round_from_lem log (look r).1 (look r).0 res more taken (read_loop more taken.0) k1 e (a, b)
        (λ z.
          let t = take_result_lem log res (look r).0 few k1 z a in
          (t, read_loop_lem log more taken.0 few t.0 b))

  -- What a `Read` does: the bytes it gives keep the order, and io.EOF comes behind all chunks.
  pub record IsReadOf (log : Bytes) (o : (Receiver × List DownResult) × (Head × Bytes))
      : Type 0 where
    pub after : IsInOrder (log ++ o.1.1) o.0.0
    pub left_parts : All IsPart o.0.1
    pub complete : o.1.0 ≡ at_eof → (stopped ≡ true) × (log ≡ joined chunks)

  hand_out_lem :
      (log : Bytes) (n : ℕ) (h : Head) (r : Receiver) (left : List DownResult)
      → IsInOrder log r
      → Ended r h
      → All IsPart left
      → IsReadOf log (hand_out n h r left)
  unfolding hand_out
  hand_out_lem log n holds r left k e a = record {
    after = record {
      order =
          append_assoc log (take n r.read_buf) (drop n r.read_buf)
          ∙ ap (λ (t : Bytes). log ++ t) (take-append-drop n r.read_buf)
          ∙ k.order;
      stored = k.stored;
      keys = k.keys;
      ends = k.ends;
      bound = k.bound;
      open_bound = k.open_bound;
    };
    left_parts = a;
    complete = λ q. absurd (cc);
  }
  hand_out_lem log n at_eof r left k (e, over, st) a = record {
    after = rw (append-nil log) k;
    left_parts = a;
    complete = λ q. (
      st,
      sym (append-nil log)
          ∙ ap (λ (t : Bytes). log ++ t) (sym (nil_of r.read_buf e))
          ∙ k.order
          ∙ ap (λ (t : List Bytes). joined t) (take_over r.next_seq chunks over),
    );
  }
  hand_out_lem log n waits r left k e a = record {
    after = rw (append-nil log) k;
    left_parts = a;
    complete = λ q. absurd (cc);
  }

  pub read-IsReadOf :
      (log : Bytes) (n : ℕ) (results : List DownResult) (r : Receiver)
      → suc (length chunks) < 2 ^ 32
      → IsInOrder log r
      → All IsPart results
      → IsReadOf log (read n results r)
  unfolding read
  read-IsReadOf log n results r few k a =
      let o = read_loop results r in
      let (k', e, a') = read_loop_lem log results r few k a in
      hand_out_lem log n o.1 o.0.0 o.0.1 k' e a'
