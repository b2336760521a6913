-- ===== src/Wallet/Charts/Blocks.antt =====
-- The cache of the timestamps against the node's answers.
use energy_chain.Shared.{
  ℕ, zero, suc, ◌≤◌, ◌≡◌, refl, ap, ap₂, sym, ◌∙◌, true, false, List, [], ◌∷◌, ◌++◌, Option, none,
  some, take, drop, length, map, ◌==◌, ==_iff, if◌then◌else◌, Bool-cases, Option-cases, inl, inr,
  ◌⊎◌, All, arith, subst,
}
use energy_chain.Wallet.Charts.Trades.{
  contains, unique_blocks, Cache, cached, cache_batch, cache_blocks, TradeLog,
}

contains-append : (s : List ℕ) (b c : ℕ) → contains s b ≡ true → contains (s ++ c ∷ []) b ≡ true
contains-append [] b c h = cc
contains-append (d ∷ s) b c h = ground (arith, contains-append s b c)

contains-last : (s : List ℕ) (b : ℕ) → contains (s ++ b ∷ []) b ≡ true
contains-last [] b = ground arith
contains-last (d ∷ s) b = ground (arith, contains-last s b)

unique_blocks-keeps :
    (seen bs : List ℕ) (b : ℕ) → contains seen b ≡ true → contains (unique_blocks seen bs) b ≡ true
unfolding unique_blocks
unique_blocks-keeps seen [] b h = h
unique_blocks-keeps seen (c ∷ bs) b h = elim (Bool-cases (contains seen c)) [
  | inl old ↦ rw old (unique_blocks-keeps seen bs b h)
  | inr new ↦ rw new (unique_blocks-keeps (seen ++ c ∷ []) bs b (contains-append seen b c h))
]

-- The block of a log.
abbrev pub block : TradeLog → ℕ
block log = log.block_number

contains-next : (s : List ℕ) (b : ℕ) → contains (if contains s b then s else s ++ b ∷ []) b ≡ true
contains-next s b = elim (Bool-cases (contains s b)) [
  | inl old ↦ rw old old
  | inr new ↦ rw new (contains-last s b)
]

pub unique_blocks-All :
    (seen : List ℕ) (logs : List TradeLog)
    → All (λ log. contains (unique_blocks seen (map block logs)) (block log) ≡ true) logs
unfolding unique_blocks
unique_blocks-All seen [] = tt
unique_blocks-All seen (log ∷ logs) =
    let next = if contains seen (block log) then seen else seen ++ block log ∷ [] in
    (
      unique_blocks-keeps next (map block logs) (block log) (contains-next seen (block log)),
      unique_blocks-All next logs,
    )

suc_eqb-zero : (n : ℕ) → (suc n == 0) ≡ false
suc_eqb-zero n = ground arith

module _ (get_block : ℕ → Option ℕ) where
  -- The cache has what the node says of the block.
  abbrev pub IsRead : Cache → ℕ → Type 0
  IsRead cache b = cached cache b ≡ get_block b

  -- The cache says nothing else of the block.
  abbrev pub Agrees : Cache → ℕ → Type 0
  Agrees cache b = (cached cache b ≡ none) ⊎ IsRead cache b

  IsRead-cons :
      (c t : ℕ) (cache : Cache) (b : ℕ)
      → get_block c ≡ some t
      → IsRead cache b
      → IsRead ((c, t) ∷ cache) b
  unfolding cached
  IsRead-cons c t cache b e h = elim (Bool-cases (c == b)) [
    | inl same ↦ rw same (sym e ∙ ap get_block ((==_iff c b).0 same))
    | inr other ↦ rw other h
  ]

  Agrees-cons :
      (c t : ℕ) (cache : Cache) (b : ℕ)
      → get_block c ≡ some t
      → Agrees cache b
      → Agrees ((c, t) ∷ cache) b
  unfolding cached
  Agrees-cons c t cache b e h = elim (Bool-cases (c == b)) [
    | inl same ↦ inr (rw same (sym e ∙ ap get_block ((==_iff c b).0 same)))
    | inr other ↦ rw other h
  ]

  cache_batch-IsRead :
      (bs : List ℕ) (cache : Cache) (b : ℕ)
      → IsRead cache b
      → IsRead (cache_batch get_block bs cache) b
  unfolding cache_batch
  cache_batch-IsRead [] cache b h = h
  cache_batch-IsRead (c ∷ bs) cache b h = elim (Option-cases (get_block c)) [
    | inl failed ↦ rw (failed, cache_batch) (cache_batch-IsRead bs cache b h)
    | inr (t, e) ↦
        rw (e, cache_batch) (cache_batch-IsRead bs ((c, t) ∷ cache) b (IsRead-cons c t cache b e h))
  ]

  -- Reading the block itself.
  pub fresh_entry :
      (bs : List ℕ) (cache : Cache) (b : ℕ)
      → Agrees cache b
      → IsRead (cache_batch get_block (b ∷ bs) cache) b
  unfolding cache_batch cached
  fresh_entry bs cache b h = elim (Option-cases (get_block b)) [
    | inl failed ↦
        let known : IsRead cache b = (elim h [ inl e ↦ e ∙ sym failed | inr e ↦ e ]) in
        rw (failed, cache_batch) (cache_batch-IsRead bs cache b known ∙ failed)
    | inr (t, e) ↦
        let known : IsRead ((b, t) ∷ cache) b = ground arith in
        rw (e, cache_batch) (cache_batch-IsRead bs ((b, t) ∷ cache) b known ∙ e)
  ]

  pub cache_batch-reads :
      (bs : List ℕ) (cache : Cache) (b : ℕ)
      → contains bs b ≡ true
      → Agrees cache b
      → IsRead (cache_batch get_block bs cache) b
  unfolding cache_batch
  cache_batch-reads [] cache b h a = cc
  cache_batch-reads (c ∷ bs) cache b h a = elim (Bool-cases (c == b)) [
    | inl same ↦
        subst (λ d. IsRead (cache_batch get_block (d ∷ bs) cache) b) (sym ((==_iff c b).0 same))
          (fresh_entry bs cache b a)
    | inr other ↦
        let later : contains bs b ≡ true = ground arith in
        elim (Option-cases (get_block c)) [
          | inl failed ↦ rw (failed, cache_batch) (cache_batch-reads bs cache b later a)
          | inr (t, e) ↦
              rw (e, cache_batch)
                (cache_batch-reads bs ((c, t) ∷ cache) b later (Agrees-cons c t cache b e a))
        ]
  ]

  cache_batch-append :
      (bs cs : List ℕ) (cache : Cache)
      → cache_batch get_block cs (cache_batch get_block bs cache)
        ≡ cache_batch get_block (bs ++ cs) cache
  unfolding cache_batch
  cache_batch-append [] cs cache = refl
  cache_batch-append (c ∷ bs) cs cache = elim (Option-cases (get_block c)) [
    | inl failed ↦ rw (failed, cache_batch) (cache_batch-append bs cs cache)
    | inr (t, e) ↦ rw (e, cache_batch) (cache_batch-append bs cs ((c, t) ∷ cache))
  ]

  take-append-drop : (n : ℕ) (bs : List ℕ) → take n bs ++ drop n bs ≡ bs
  take-append-drop zero bs = refl
  take-append-drop (suc n) [] = refl
  take-append-drop (suc n) (b ∷ bs) = ap (λ l. b ∷ l) (take-append-drop n bs)

  length-drop : (n : ℕ) (bs : List ℕ) → length (drop n bs) ≤ length bs
  length-drop zero bs = omega arith
  length-drop (suc n) [] = omega arith
  length-drop (suc n) (b ∷ bs) = omega (arith, length-drop n bs)

  -- With a round for each block, the batches read what one batch of all the blocks reads.
  pub cache_blocks-eq :
      (fuel : ℕ) (bs : List ℕ) (cache : Cache)
      → length bs ≤ fuel
      → cache_blocks get_block fuel bs cache ≡ cache_batch get_block bs cache
  unfolding cache_blocks cache_batch
  cache_blocks-eq zero [] cache h = refl
  cache_blocks-eq zero (b ∷ bs) cache h = absurd (omega arith)
  cache_blocks-eq (suc fuel) [] cache h = refl
  cache_blocks-eq (suc fuel) (b ∷ bs) cache h =
      rw (suc_eqb-zero (length bs)) (
        cache_blocks-eq fuel (drop 20 (b ∷ bs)) (cache_batch get_block (take 20 (b ∷ bs)) cache)
          (omega (arith, length-drop 19 bs)))
      ∙ cache_batch-append (take 20 (b ∷ bs)) (drop 20 (b ∷ bs)) cache
      ∙ ap (λ l. cache_batch get_block l cache) (take-append-drop 20 (b ∷ bs))

  -- A cache with the block of one log.
  abbrev pub own_block : TradeLog → Cache
  own_block log = cache_batch get_block (block log ∷ []) []

  pub map_eq :
      {A B : Type 0} (f g : A → B) (xs : List A) → All (λ x. f x ≡ g x) xs → map f xs ≡ map g xs
  map_eq f g [] h = refl
  map_eq f g (x ∷ xs) h = ap₂ (λ y ys. y ∷ ys) h.0 (map_eq f g xs h.1)
