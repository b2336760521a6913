-- ===== src/Indexer/Ranges.antt =====
-- Ranges of blocks, both ends included, and how often a list of them holds a block.
use energy_chain.Shared.{
  ℕ, suc, ◌+◌, ◌-◌, ◌≤◌, ◌<◌, ◌≡◌, ◌&&◌, List, [], ◌∷◌, ◌++◌, leb, if◌then◌else◌, arith,
}

abbrev pub Range : Type 0
Range = ℕ × ℕ

-- 1 if the block lies in the range, and 0 if not.
abbrev pub holds : ℕ → Range → ℕ
holds b (from, to) = if leb from b && leb b to then 1 else 0

-- The number of ranges that hold the block.
abbrev pub hits : ℕ → List Range → ℕ
hits b [] = 0
hits b (r ∷ rs) = holds b r + hits b rs

-- The number of blocks of a range.
abbrev pub width : Range → ℕ
width (from, to) = suc to - from

pub hits-append : (b : ℕ) (rs ss : List Range) → hits b (rs ++ ss) ≡ hits b rs + hits b ss
hits-append b [] ss = omega arith
hits-append b (r ∷ rs) ss = omega (arith, hits-append b rs ss)

pub holds-join :
    (b from mid to : ℕ)
    → from ≤ suc mid
    → mid ≤ to
    → holds b (from, mid) + holds b (suc mid, to) ≡ holds b (from, to)
holds-join b from mid to p q = ground arith

pub holds-empty : (b from to : ℕ) → to < from → holds b (from, to) ≡ 0
holds-empty b from to h = ground arith
