-- ===== src/DownPath/Growth.antt =====
-- What holds of the two ends, and that it holds on as the stream goes on.
use tamizdat.DownPath.{DownFrame}
use tamizdat.DownPath.Frames.{IsAnswer, IsStocked, of_frame, of_idle}
use tamizdat.DownPath.Chunks.{Part, get_elem?-append, get_elem?-lt, joined, take_within}
use tamizdat.DownPath.Parts.{IsInOrder, IsPart}
use tamizdat.DownPath.Receiver.{DownResult, decode_down}
use tamizdat.DownPath.Ring.{contents}
use tamizdat.DownPath.Wire.{result_of, decode_down-encode_down_frame}
use tamizdat.Prelude.Bytes.{Bytes, be_bytes, from_be}
use tamizdat.Prelude.{
  ℕ, Bool, List, Option, none, some, ◌∷◌, [], ◌++◌, length, get_elem?, ◌^◌, suc, zero, true, false,
  arith, ◌≡◌, ◌≤◌, ◌<◌, sym, ap, ◌∙◌, inl, inr, All, length-append,
}
use mathlib.Core.Path.{subst}
use tamizdat.DownPath.Network.{System, is_idle, max_payload}

-- A frame that is a part of the stream and short enough for an answer.
abbrev pub IsFrame : List Bytes → Bool → DownFrame → Type 0
IsFrame chunks stopped f = Part chunks stopped f.seq f.bytes f.eof × (length f.bytes ≤ max_payload)

pub record IsSound (s : System) : Type 0 where
  pub few : suc (length s.chunks) < 2 ^ 32
  pub stocked : IsStocked (IsFrame s.chunks s.stopped) s.session
  pub answered : All (IsAnswer (IsFrame s.chunks s.stopped)) s.sent
  pub parts : All (IsPart s.chunks s.stopped) s.results
  pub in_order : IsInOrder s.chunks s.stopped s.log s.receiver

All-map {ℓ} :
    {A : Type ℓ} (P Q : A → Type 0) (xs : List A) → ((x : A) → P x → Q x) → All P xs → All Q xs
All-map P Q [] f a = tt
All-map P Q (x ∷ xs) f (p, a) = (f x p, All-map P Q xs f a)

pub All-get :
    (P : Bytes → Type 0) (xs : List Bytes) (i : ℕ) (x : Bytes)
    → All P xs
    → get_elem? xs i ≡ some x
    → P x
All-get P [] i x a e = absurd (cc)
All-get P (y ∷ xs) zero x (p, a) e = let q : y ≡ x = cc in subst P q p
All-get P (y ∷ xs) (suc i) x (p, a) e = All-get P xs i x a e

some_inj : (x y : DownResult) → some x ≡ some y → x ≡ y
some_inj x y e = cc

frame-IsPart :
    (chunks : List Bytes) (stopped : Bool) (g : DownFrame)
    → IsFrame chunks stopped g
    → IsPart chunks stopped (result_of g)
unfolding result_of
frame-IsPart chunks stopped g (inl (a, b), l) = inl (a, rw a b)
frame-IsPart chunks stopped g (inr (a, b, c), l) = inr (a, b, c)

frame-seq :
    (chunks : List Bytes) (stopped : Bool) (g : DownFrame)
    → IsFrame chunks stopped g
    → g.seq ≤ length chunks
frame-seq chunks stopped g (inl (a, b), l) = omega (arith, get_elem?-lt chunks g.seq g.bytes b)
frame-seq chunks stopped g (inr (a, b, c), l) = omega arith

idle_of : Option DownResult → Bool
unfolding is_idle
idle_of none = true
idle_of (some r) = is_idle r

idle_decoded :
    (ack : ℕ) (res : DownResult)
    → decode_down max_payload (be_bytes 4 ack ++ be_bytes 2 0) ≡ some res
    → is_idle res ≡ true
unfolding decode_down is_idle idle_of
idle_decoded ack res e =
    let same : is_idle (record { seq = from_be (be_bytes 4 ack); buf = []; eof = false })
        ≡ is_idle res =
      ap (λ (o : Option DownResult). idle_of o) e in
    sym same

-- An answer that arrives and brings something is a part of the stream.
pub answer-IsPart :
    (chunks : List Bytes) (stopped : Bool) (b : Bytes) (res : DownResult)
    → suc (length chunks) < 2 ^ 32
    → IsAnswer (IsFrame chunks stopped) b
    → decode_down max_payload b ≡ some res
    → is_idle res ≡ false
    → IsPart chunks stopped res
answer-IsPart chunks stopped b res few (of_frame g p e) d i =
    let low = frame-seq chunks stopped g p in
    let whole = decode_down-encode_down_frame max_payload g (omega arith) p.1 (omega arith) in
    let same : result_of g ≡ res =
      some_inj (result_of g) res
        (sym whole ∙ ap (λ (x : Bytes). decode_down max_payload x) (sym e) ∙ d) in
    subst (λ (r : DownResult). IsPart chunks stopped r) same (frame-IsPart chunks stopped g p)
answer-IsPart chunks stopped b res few (of_idle ack e) d i =
    let idle = idle_decoded ack res (rw (← e) d) in absurd (cc)

-- What holds of the parts so far holds when the stream goes on.
Part-grow :
    (chunks more : List Bytes) (stopped later : Bool) (seq : ℕ) (b : Bytes) (eof : Bool)
    → stopped ≡ false
    → Part chunks stopped seq b eof
    → Part (chunks ++ more) later seq b eof
Part-grow chunks more stopped later seq b eof flowing (inl (e, g)) =
    inl (e, get_elem?-append chunks more seq b g)
Part-grow chunks more stopped later seq b eof flowing (inr (e, l, st)) = absurd (cc)

unfoldable pub grown : (more : List Bytes) (later : Bool) (s : System) → System
grown more later s = record s { chunks = s.chunks ++ more; stopped = later }

answer-map :
    (P Q : DownFrame → Type 0) (b : Bytes)
    → ((f : DownFrame) → P f → Q f)
    → IsAnswer P b
    → IsAnswer Q b
answer-map P Q b f (of_frame g p e) = of_frame g (f g p) e
answer-map P Q b f (of_idle ack e) = of_idle ack e

order_grow :
    (more : List Bytes) (later : Bool) (s : System)
    → s.stopped ≡ false
    → IsInOrder s.chunks s.stopped s.log s.receiver
    → IsInOrder (s.chunks ++ more) later s.log s.receiver
order_grow more later s flowing k =
    let within : s.receiver.next_seq ≤ length s.chunks = elim k.open_bound [
      | inl st ↦ absurd (cc)
      | inr h ↦ h
    ] in
    let longer = length-append s.chunks more in
    record {
      order =
          k.order
          ∙ ap (λ (t : List Bytes). joined t)
              (sym (take_within s.receiver.next_seq s.chunks more within));
      stored = λ j b q. get_elem?-append s.chunks more j b (k.stored j b q);
      keys = k.keys;
      ends = λ m q. let st = (k.ends m q).1 in absurd (cc);
      bound = omega (arith, within, longer);
      open_bound = inr (omega (arith, within, longer));
    }

pub grown-IsSound :
    (more : List Bytes) (later : Bool) (s : System)
    → s.stopped ≡ false
    → suc (length (s.chunks ++ more)) < 2 ^ 32
    → IsSound s
    → IsSound (grown more later s)
unfolding grown
grown-IsSound more later s flowing few k =
    let old = IsFrame s.chunks s.stopped in
    let new = IsFrame (s.chunks ++ more) later in
    let frame : (f : DownFrame) → old f → new f =
      λ f p. (Part-grow s.chunks more s.stopped later f.seq f.bytes f.eof flowing p.0, p.1) in
    record {
      few = few;
      stocked = record {
        whole = k.stocked.whole;
        kept = All-map old new (contents s.session.ring) frame k.stocked.kept;
        waiting = All-map old new s.session.channel frame k.stocked.waiting;
      };
      answered =
          All-map (IsAnswer old) (IsAnswer new) s.sent (λ b a. answer-map old new b frame a)
            k.answered;
      parts =
          All-map (IsPart s.chunks s.stopped) (IsPart (s.chunks ++ more) later) s.results
            (λ r p. Part-grow s.chunks more s.stopped later r.seq r.buf r.eof flowing p) k.parts;
      in_order = order_grow more later s flowing k.in_order;
    }
