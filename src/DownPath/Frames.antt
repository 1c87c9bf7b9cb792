-- ===== src/DownPath/Frames.antt =====
-- Every answer of the server carries a part of the stream.
use tamizdat.DownPath.{
  DownFrame, ReplayRing, Session, push_replay, find_replay, should_retransmit, put_back, answer,
  produce, frame_capacity, retransmit_gap, respond_with, respond_from_channel, or_replay, respond,
  respond_late, encode_down_frame,
}
use tamizdat.DownPath.LastFrames.{
  first_exact, first_closest, newest, wanted, find_replay_lem, contents-push_replay, wanted_exact,
  wanted_closest, wanted-newest,
}
use tamizdat.DownPath.Ring.{IsRing, contents, last_of, push_replay-IsRing}
use mathlib.Core.Path.{subst}
use tamizdat.Prelude.{
  ℕ, Bool, List, Option, none, some, ◌∷◌, [], ◌++◌, length, drop, ltb, leb, ◌==◌, if◌then◌else◌,
  ◌&&◌, ◌%◌, ◌^◌, ◌+◌, ◌-◌, suc, zero, true, false, Bool-cases, Option-cases, inl, inr, All,
  All-append, ◌≡◌, refl,
}
use tamizdat.Prelude.Bytes.{Bytes, be_bytes}

module _ (P : DownFrame → Type 0) where
  All-drop : (n : ℕ) (fs : List DownFrame) → All P fs → All P (drop n fs)
  All-drop zero fs a = a
  All-drop (suc n) [] a = tt
  All-drop (suc n) (f ∷ fs) a = All-drop n fs a.1

  last_of-All : (n : ℕ) (fs : List DownFrame) → All P fs → All P (last_of n fs)
  unfolding last_of
  last_of-All n fs a = All-drop (length fs - n) fs a

  -- A frame that may be missing.
  abbrev pub Gives : Option DownFrame → Type 0
  Gives none = Unit {0}
  Gives (some f) = P f

  either-Gives :
      (b : Bool) (x y : Option DownFrame) → Gives x → Gives y → Gives (if b then x else y)
  either-Gives true x y k l = k
  either-Gives false x y k l = l

  first_exact-Gives : (ack : ℕ) (fs : List DownFrame) → All P fs → Gives (first_exact ack fs)
  unfolding first_exact
  first_exact-Gives ack [] a = tt
  first_exact-Gives ack (f ∷ fs) (p, a) =
      either-Gives (f.seq == ack) (some f) (first_exact ack fs) p (first_exact-Gives ack fs a)

  first_closest-Gives : (ack : ℕ) (fs : List DownFrame) → All P fs → Gives (first_closest ack fs)
  unfolding first_closest
  first_closest-Gives ack [] a = tt
  first_closest-Gives ack (f ∷ fs) (p, a) =
      either-Gives (leb ack f.seq) (some f) (first_closest ack fs) p (first_closest-Gives ack fs a)

  newest-Gives : (fs : List DownFrame) → All P fs → Gives (newest fs)
  unfolding newest
  newest-Gives [] a = tt
  newest-Gives (f ∷ []) a = a.0
  newest-Gives (f ∷ g ∷ fs) a = newest-Gives (g ∷ fs) a.1

  wanted-Gives : (ack : ℕ) (fs : List DownFrame) → All P fs → Gives (wanted ack fs)
  wanted-Gives ack fs a = elim (Option-cases (first_exact ack fs)) [
    | inr (f, e) ↦
        rw (wanted_exact ack fs f e)
          (subst (λ (o : Option DownFrame). Gives o) e (first_exact-Gives ack fs a))
    | inl e ↦ elim (Option-cases (first_closest ack fs)) [
      | inr (f, c) ↦
          rw (wanted_closest ack fs f e c)
            (subst (λ (o : Option DownFrame). Gives o) c (first_closest-Gives ack fs a))
      | inl c ↦ rw (wanted-newest ack fs e c) (newest-Gives fs a)
    ]
  ]

  find_replay-Gives : (ack : ℕ) (r : ReplayRing) → All P (contents r) → Gives (find_replay ack r)
  find_replay-Gives ack r a = rw (find_replay_lem ack r) (wanted-Gives ack (contents r) a)

  -- The frames that a session has.
  pub record IsStocked (s : Session) : Type 0 where
    pub whole : IsRing s.ring
    pub kept : All P (contents s.ring)
    pub waiting : All P s.channel

  pub produce-IsStocked :
      (takes : Bool) (f : DownFrame) (s : Session)
      → P f
      → IsStocked s
      → IsStocked (produce takes f s)
  unfolding produce
  produce-IsStocked takes f s p k =
      let whole = push_replay-IsRing f s.ring k.whole in
      let kept : All P (contents (push_replay f s.ring)) =
        rw (contents-push_replay f s.ring k.whole) (
          last_of-All 32 (contents s.ring ++ f ∷ [])
            (All-append P (contents s.ring) (f ∷ []) k.kept (p, tt))) in
      elim (Bool-cases takes) [
        | inl t ↦ rw t (record {
          whole = whole;
          kept = kept;
          waiting = All-append P s.channel (f ∷ []) k.waiting (p, tt);
        })
        | inr t ↦ rw t (record { whole = whole; kept = kept; waiting = k.waiting })
      ]

  should_retransmit-IsStocked :
      (ack : ℕ) (s : Session) → IsStocked s → IsStocked (should_retransmit ack s).0
  unfolding should_retransmit
  should_retransmit-IsStocked ack s k = elim (Bool-cases (ltb s.last_ack ack)) [
    | inl a ↦ rw a (record { whole = k.whole; kept = k.kept; waiting = k.waiting })
    | inr a ↦ elim (Bool-cases (ack == s.last_ack)) [
      | inl b ↦ rw (a, b) (record { whole = k.whole; kept = k.kept; waiting = k.waiting })
      | inr b ↦ rw (a, b) k
    ]
  ]

  put_back-IsStocked : (f : DownFrame) (s : Session) → P f → IsStocked s → IsStocked (put_back f s)
  unfolding put_back
  put_back-IsStocked f s p k = elim (Bool-cases (ltb (length s.channel) frame_capacity)) [
    | inl a ↦ rw a (record {
      whole = k.whole;
      kept = k.kept;
      waiting = All-append P s.channel (f ∷ []) k.waiting (p, tt);
    })
    | inr a ↦ rw a k
  ]

  answer-IsStocked :
      (should : Bool) (ack : ℕ) (f : DownFrame) (s : Session)
      → P f
      → IsStocked s
      → IsStocked (answer should ack f s).0 × P (answer should ack f s).1
  unfolding answer
  answer-IsStocked should ack f s p k =
      elim (Bool-cases (should && leb ((ack + retransmit_gap) % 2 ^ 32) f.seq)) [
        | inr a ↦ rw a (k, p)
        | inl a ↦ elim (Option-cases (find_replay ack s.ring)) [
          | inl e ↦ rw (a, e) (k, p)
          | inr (g, e) ↦ elim (Bool-cases (g.seq == ack)) [
            | inl b ↦
                rw (a, e, b)
                  (
                    put_back-IsStocked f s p k,
                    subst (λ (o : Option DownFrame). Gives o) e
                        (find_replay-Gives ack s.ring k.kept),
                  )
            | inr b ↦ rw (a, e, b) (k, p)
          ]
        ]
      ]

  -- The bytes of an answer: a frame of the session's, or none.
  pub data IsAnswer (b : Bytes) : Type 0 where
    of_frame : (g : DownFrame) → P g → b ≡ encode_down_frame g → IsAnswer b
    of_idle : (ack : ℕ) → b ≡ be_bytes 4 ack ++ be_bytes 2 0 → IsAnswer b

  abbrev pub MayAnswer : Option Bytes → Type 0
  MayAnswer none = Unit {0}
  MayAnswer (some b) = IsAnswer b

  abbrev pub Responds : Session × Option Bytes → Type 0
  Responds o = IsStocked o.0 × MayAnswer o.1

  respond_with-Responds :
      (should : Bool) (ack : ℕ) (s : Session) (channel : List DownFrame)
      → All P channel
      → IsStocked s
      → Responds (respond_with should ack s channel)
  unfolding respond_with
  respond_with-Responds should ack s [] a k = (k, tt)
  respond_with-Responds should ack s (f ∷ more) (p, a) k =
      let (k', p') =
        answer-IsStocked should ack f (record s { channel = more }) p
          (record { whole = k.whole; kept = k.kept; waiting = a }) in
      (k', of_frame _ p' refl)

  pub respond_from_channel-Responds :
      (should : Bool) (ack : ℕ) (s : Session)
      → IsStocked s
      → Responds (respond_from_channel should ack s)
  unfolding respond_from_channel
  respond_from_channel-Responds should ack s k =
      respond_with-Responds should ack s s.channel k.waiting k

  or_replay-Responds :
      (ack : ℕ) (o : Session × Option Bytes) → Responds o → Responds (or_replay ack o)
  unfolding or_replay
  or_replay-Responds ack (s, some b) k = k
  or_replay-Responds ack (s, none) (k, m) = elim (Option-cases (find_replay ack s.ring)) [
    | inl e ↦ rw (e, or_replay) (k, tt)
    | inr (f, e) ↦
        rw (e, or_replay)
          (
            k,
            of_frame f
                (subst (λ (o : Option DownFrame). Gives o) e (find_replay-Gives ack s.ring k.kept))
                refl,
          )
  ]

  pub respond-Responds : (ack : ℕ) (s : Session) → IsStocked s → Responds (respond ack s)
  unfolding respond
  respond-Responds ack s k =
      let r = should_retransmit ack s in
      or_replay-Responds ack (respond_from_channel r.1 ack r.0)
        (respond_from_channel-Responds r.1 ack r.0 (should_retransmit-IsStocked ack s k))

  pub respond_late-Responds :
      (ack : ℕ) (s : Session)
      → IsStocked s
      → IsStocked (respond_late ack s).0 × IsAnswer (respond_late ack s).1
  unfolding respond_late
  respond_late-Responds ack s k =
      let first = respond_with false ack s s.channel in
      let taken = respond_with-Responds false ack s s.channel k.waiting k in
      let or = or_replay-Responds ack first taken in
      elim (Option-cases (or_replay ack first).1) [
        | inl e ↦ rw (e, respond_late) (taken.0, of_idle ack refl)
        | inr (b, e) ↦
            rw (e, respond_late) (taken.0, subst (λ (o : Option Bytes). MayAnswer o) e or.1)
      ]
