-- ===== src/Masquerade/Window.antt =====
-- The sliding window of one source: its size, its age and its order.
use tamizdat.Masquerade.{
  window_duration, max_probes, evict_expired, bound_probes, record_probe, is_live,
}
use tamizdat.Prelude.{
  ℕ, List, ◌∷◌, All, length, ◌≤◌, drop, arith, ◌-◌, ◌<◌, length-append, suc, ◌+◌, ◌++◌, ◌≡◌, [],
  Bool-cases, false, zero, leb, refl, inl, length-drop, leb→le, inr, leb-false,
}

-- The probes are in order, none before `lo`.
abbrev pub OrderedFrom : ℕ → List ℕ → Type 0
OrderedFrom lo [] = Unit {0}
OrderedFrom lo (t ∷ probes) = (lo ≤ t) × OrderedFrom t probes

-- No probe is later than `now`.
abbrev pub UpTo : ℕ → List ℕ → Type 0
UpTo now probes = All (λ t. t ≤ now) probes

bound_probes-length : (probes : List ℕ) → length (bound_probes probes) < max_probes
unfolding bound_probes
bound_probes-length probes = elim (Bool-cases (leb max_probes (length probes))) [
  | inl e ↦ rw e (omega (arith, length-drop (length probes - max_probes + 1) probes, leb→le _ _ e))
  | inr e ↦ rw e (omega (arith, leb-false _ _ e))
]

-- A window never holds more than the capacity, whatever it held before.
pub record_probe-length :
    (now : ℕ) (probes : List ℕ) → length (record_probe now probes) ≤ max_probes
unfolding record_probe
record_probe-length now probes = omega (
  arith,
  length-append (bound_probes (evict_expired (now - window_duration) probes)) (now ∷ []),
  bound_probes-length (evict_expired (now - window_duration) probes),
)

OrderedFrom-mono :
    (lo hi : ℕ) (probes : List ℕ) → lo ≤ hi → OrderedFrom hi probes → OrderedFrom lo probes
OrderedFrom-mono lo hi [] h s = tt
OrderedFrom-mono lo hi (t ∷ probes) h s = (omega arith, s.1)

evict_expired-OrderedFrom :
    (lo cutoff : ℕ) (probes : List ℕ)
    → OrderedFrom lo probes
    → OrderedFrom cutoff (evict_expired cutoff probes)
unfolding evict_expired
evict_expired-OrderedFrom lo cutoff [] s = tt
evict_expired-OrderedFrom lo cutoff (t ∷ probes) s =
    ground (arith, evict_expired-OrderedFrom t cutoff probes s.1)

drop-OrderedFrom :
    (n lo : ℕ) (probes : List ℕ) → OrderedFrom lo probes → OrderedFrom lo (drop n probes)
drop-OrderedFrom zero lo probes s = s
drop-OrderedFrom (suc n) lo [] s = tt
drop-OrderedFrom (suc n) lo (t ∷ probes) s =
    drop-OrderedFrom n lo probes (OrderedFrom-mono lo t probes s.0 s.1)

bound_probes-OrderedFrom :
    (lo : ℕ) (probes : List ℕ) → OrderedFrom lo probes → OrderedFrom lo (bound_probes probes)
unfolding bound_probes
bound_probes-OrderedFrom lo probes s =
    ground (arith, drop-OrderedFrom (length probes - max_probes + 1) lo probes)

evict_expired-UpTo :
    (now cutoff : ℕ) (probes : List ℕ) → UpTo now probes → UpTo now (evict_expired cutoff probes)
unfolding evict_expired
evict_expired-UpTo now cutoff [] u = tt
evict_expired-UpTo now cutoff (t ∷ probes) u =
    ground (arith, evict_expired-UpTo now cutoff probes u.1)

drop-UpTo : (n now : ℕ) (probes : List ℕ) → UpTo now probes → UpTo now (drop n probes)
drop-UpTo zero now probes u = u
drop-UpTo (suc n) now [] u = tt
drop-UpTo (suc n) now (t ∷ probes) u = drop-UpTo n now probes u.1

bound_probes-UpTo : (now : ℕ) (probes : List ℕ) → UpTo now probes → UpTo now (bound_probes probes)
unfolding bound_probes
bound_probes-UpTo now probes u =
    ground (arith, drop-UpTo (length probes - max_probes + 1) now probes)

OrderedFrom-concat :
    (lo now : ℕ) (probes : List ℕ)
    → lo ≤ now
    → OrderedFrom lo probes
    → UpTo now probes
    → OrderedFrom lo (probes ++ (now ∷ []))
OrderedFrom-concat lo now [] h s u = (h, tt)
OrderedFrom-concat lo now (t ∷ probes) h s u = (s.0, OrderedFrom-concat t now probes u.0 s.1 u.1)

-- Under a clock that does not run back, the window after a probe is in order, and holds nothing from
-- before the window's start.
pub record_probe-OrderedFrom :
    (lo now : ℕ) (probes : List ℕ)
    → OrderedFrom lo probes
    → UpTo now probes
    → OrderedFrom (now - window_duration) (record_probe now probes)
unfolding record_probe
record_probe-OrderedFrom lo now probes s u =
    let cutoff = now - window_duration in
    OrderedFrom-concat cutoff now (bound_probes (evict_expired cutoff probes)) (omega arith)
      (bound_probes-OrderedFrom cutoff (evict_expired cutoff probes)
        (evict_expired-OrderedFrom lo cutoff probes s))
      (bound_probes-UpTo now (evict_expired cutoff probes) (evict_expired-UpTo now cutoff probes u))

-- A window whose newest probe is before the cutoff is evicted whole.
pub evict_dead :
    (lo dead cutoff : ℕ) (probes : List ℕ)
    → OrderedFrom lo probes
    → dead ≤ cutoff
    → is_live dead probes ≡ false
    → evict_expired cutoff probes ≡ []
unfolding is_live evict_expired
evict_dead lo dead cutoff [] s h e = refl
evict_dead lo dead cutoff (t ∷ []) s h e = ground arith
evict_dead lo dead cutoff (t ∷ u ∷ probes) s h e =
    ground (arith, evict_dead t dead cutoff (u ∷ probes) s.1 h e, before_cutoff t u probes s.1 e)
  where
    before_cutoff :
        (v w : ℕ) (more : List ℕ)
        → OrderedFrom v (w ∷ more)
        → is_live dead (w ∷ more) ≡ false
        → v < cutoff
    before_cutoff v w [] o q = ground arith
    before_cutoff v w (x ∷ more) o q = omega (arith, before_cutoff w x more o.1 q)
