-- ===== src/Replay/Heap.antt =====
-- The min-heap on insertion times: pkg/tamizdat/replay_guard.go, `replayMinHeap`.
use tamizdat.Prelude.{
  ℕ, List, ◌∷◌, inl, ◌≤◌, ◌-◌, if◌then◌else◌, ◌≡◌, arith, Bool-cases, [], ltb, leb, ◌⊎◌, inr,
  leb→le, refl,
}
use native.Mathlib.Nat.{le_refl}

-- `replayHeapEntry`: the insertion time and the key.
abbrev pub Entry : Type 0
Entry = ℕ × ℕ

-- `heap.Push`, by `Less` on the insertion time.
pub heap_push : Entry → List Entry → List Entry
heap_push (t, key) [] = (t, key) ∷ []
heap_push (t, key) ((u, other) ∷ heap) =
    let rest = heap_push (t, key) heap in
    if ltb t u then (t, key) ∷ ((u, other) ∷ heap) else (u, other) ∷ rest

-- The loop of `reapLocked` that pops entries past the window off the front.
pub drop_stale : ℕ → ℕ → List Entry → List Entry
drop_stale now window [] = []
drop_stale now window ((t, key) ∷ heap) =
    let rest = drop_stale now window heap in if leb (now - t) window then (t, key) ∷ heap else rest

abbrev pub In : ℕ → ℕ → List Entry → Type 0
In t key [] = ⊥
In t key ((u, other) ∷ heap) = ((t ≡ u) × (key ≡ other)) ⊎ In t key heap

-- No entry is earlier than `lo`, and the entries come in order.
abbrev pub SortedFrom : ℕ → List Entry → Type 0
SortedFrom lo [] = Unit {0}
SortedFrom lo ((t, key) ∷ heap) = (lo ≤ t) × SortedFrom t heap

pub In-heap_push_self : (t key : ℕ) (heap : List Entry) → In t key (heap_push (t, key) heap)
unfolding heap_push
In-heap_push_self t key [] = inl (refl, refl)
In-heap_push_self t key ((u, other) ∷ heap) = ground (arith, In-heap_push_self t key heap)

pub In-heap_push :
    (t key u other : ℕ) (heap : List Entry) → In u other heap → In u other (heap_push (t, key) heap)
unfolding heap_push
In-heap_push t key u other [] i = absurd i
In-heap_push t key u other ((v, k) ∷ heap) (inl e) = ground arith
In-heap_push t key u other ((v, k) ∷ heap) (inr i) =
    ground (arith, In-heap_push t key u other heap i)

pub heap_push-SortedFrom :
    (lo t key : ℕ) (heap : List Entry)
    → lo ≤ t
    → SortedFrom lo heap
    → SortedFrom lo (heap_push (t, key) heap)
unfolding heap_push
heap_push-SortedFrom lo t key [] h s = (h, tt)
heap_push-SortedFrom lo t key ((u, other) ∷ heap) h s =
    ground (arith, heap_push-SortedFrom u t key heap)

pub In-SortedFrom : (lo t key : ℕ) (heap : List Entry) → SortedFrom lo heap → In t key heap → lo ≤ t
In-SortedFrom lo t key [] s i = absurd i
In-SortedFrom lo t key ((u, other) ∷ heap) s (inl e) = omega arith
In-SortedFrom lo t key ((u, other) ∷ heap) s (inr i) =
    omega (arith, In-SortedFrom u t key heap s.1 i)

pub SortedFrom-mono :
    (lo hi : ℕ) (heap : List Entry) → lo ≤ hi → SortedFrom hi heap → SortedFrom lo heap
SortedFrom-mono lo hi [] h s = tt
SortedFrom-mono lo hi ((t, key) ∷ heap) h s = (omega arith, s.1)

pub drop_stale-SortedFrom :
    (lo now window : ℕ) (heap : List Entry)
    → SortedFrom lo heap
    → SortedFrom lo (drop_stale now window heap)
unfolding drop_stale
drop_stale-SortedFrom lo now window [] s = tt
drop_stale-SortedFrom lo now window ((t, key) ∷ heap) s =
    ground (arith, drop_stale-SortedFrom lo now window heap (SortedFrom-mono lo t heap s.0 s.1))

-- An entry inside the window is not popped.
pub In-drop_stale :
    (now window t key : ℕ) (heap : List Entry)
    → now - t ≤ window
    → In t key heap
    → In t key (drop_stale now window heap)
unfolding drop_stale
In-drop_stale now window t key [] h i = i
In-drop_stale now window t key ((u, other) ∷ heap) h (inl e) = ground arith
In-drop_stale now window t key ((u, other) ∷ heap) h (inr i) =
    ground (arith, In-drop_stale now window t key heap h i)

-- After the loop every entry is inside the window: the heap does not keep what has aged.
pub drop_stale_fresh :
    (now window t key : ℕ) (heap : List Entry) (lo : ℕ)
    → SortedFrom lo heap
    → In t key (drop_stale now window heap)
    → now - t ≤ window
unfolding drop_stale
drop_stale_fresh now window t key [] lo s i = absurd i
drop_stale_fresh now window t key ((u, other) ∷ heap) lo s i =
    elim (Bool-cases (leb (now - u) window)) [
      | inl keep ↦ omega (
        arith,
        leb→le _ _ keep,
        In-SortedFrom u t key ((u, other) ∷ heap) (le_refl u, s.1) (rw keep at i),
      )
      | inr drop ↦ drop_stale_fresh now window t key heap u s.1 (rw drop at i)
    ]
