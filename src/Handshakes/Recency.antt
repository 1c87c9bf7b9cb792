-- ===== src/Handshakes/Recency.antt =====
-- The times that a window keeps.
use tamizdat.Handshakes.{recent}
use tamizdat.Prelude.{ℕ, List, length, ◌≤◌, ◌++◌, arith, ◌≡◌, ◌<◌, ◌∷◌, get_or, ◌+◌, [], refl}

pub length-recent_le : (now window : ℕ) (ts : List ℕ) → length (recent now window ts) ≤ length ts
unfolding recent
length-recent_le now window [] = omega arith
length-recent_le now window (t ∷ ts) = ground (arith, length-recent_le now window ts)

-- A later look at what an earlier one kept sees what it would have seen at once.
pub recent-recent :
    (now later window : ℕ) (ts : List ℕ)
    → now ≤ later
    → recent later window (recent now window ts) ≡ recent later window ts
unfolding recent
recent-recent now later window [] h = refl
recent-recent now later window (t ∷ ts) h = ground (arith, recent-recent now later window ts)

pub recent-append :
    (now window : ℕ) (xs ys : List ℕ)
    → recent now window (xs ++ ys) ≡ recent now window xs ++ recent now window ys
unfolding recent
recent-append now window [] ys = refl
recent-append now window (x ∷ xs) ys = ground (arith, recent-append now window xs ys)

-- A later look sees fewer.
pub length-recent_mono :
    (now later window : ℕ) (ts : List ℕ)
    → now ≤ later
    → length (recent later window ts) ≤ length (recent now window ts)
unfolding recent
length-recent_mono now later window [] h = omega arith
length-recent_mono now later window (t ∷ ts) h =
    ground (arith, length-recent_mono now later window ts)

-- Once the oldest of the kept times has left the window, fewer are kept.
pub length-recent_expired :
    (now later window : ℕ) (ts : List ℕ)
    → now ≤ later
    → 0 < length (recent now window ts)
    → get_or (recent now window ts) 0 0 + window ≤ later
    → length (recent later window ts) < length (recent now window ts)
unfolding recent
length-recent_expired now later window [] h n e = absurd (omega arith)
length-recent_expired now later window (t ∷ ts) h n e =
    ground
      (arith, length-recent_expired now later window ts, length-recent_mono now later window ts)
