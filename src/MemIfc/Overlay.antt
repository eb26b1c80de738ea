-- ===== src/MemIfc/Overlay.antt =====
-- Bytes copied into a range: what a function on addresses or indices is afterwards.
use switchboard_adapter.Base.{
  ℕ, ◌+◌, ◌-◌, ◌≤◌, ◌≡◌, inl, inr, Bool-cases, leb, if◌then◌else◌, arith,
}
use switchboard_adapter.Base.Memcpy.{in_range}

-- `old`, but in `[at, at + n)` the values of `new` from `start` on.
abbrev pub overlay : (ℕ → ℕ) → ℕ → ℕ → (ℕ → ℕ) → ℕ → ℕ → ℕ
overlay old at n new start x = if in_range at n x then new (start + (x - at)) else old x

pub overlay_none :
    (old : ℕ → ℕ) (at n : ℕ) (new : ℕ → ℕ) (start x : ℕ)
    → n ≡ 0
    → overlay old at n new start x ≡ old x
overlay_none old at n new start x e = ground arith

-- The first `b` and the `r` after them make up the whole.
pub overlay-cons :
    (old mid : ℕ → ℕ) (at b r : ℕ) (new : ℕ → ℕ) (start x : ℕ)
    → mid x ≡ overlay old at b new start x
    → overlay mid (at + b) r new (start + b) x ≡ overlay old at (b + r) new start x
overlay-cons old mid at b r new start x h = elim (Bool-cases (leb (at + b) x)) [
  | inl late ↦ rw (index (ground arith)) (ground arith)
  | inr early ↦ ground arith
]
  where
    index : at + b ≤ x → start + b + (x - (at + b)) ≡ start + (x - at)
    index le = omega arith

pub overlay_ext :
    (old : ℕ → ℕ) (at n : ℕ) (new new' : ℕ → ℕ) (start x : ℕ)
    → ((y : ℕ) → new y ≡ new' y)
    → overlay old at n new start x ≡ overlay old at n new' start x
overlay_ext old at n new new' start x h = ground (arith, h (start + (x - at)))
