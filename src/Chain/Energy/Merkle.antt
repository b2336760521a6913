-- ===== src/Chain/Energy/Merkle.antt =====
-- `verifyMerkleRoot` of chain/x/energy/keeper/msg_server.go. `keccak` is the hash of some bytes, and
-- `hex` prints a hash, which the sorting of a pair compares.
use energy_chain.Shared.{
  ℕ, zero, suc, ◌%◌, ◌≤◌, ◌≡◌, refl, sym, ap, ◌∙◌, Bool, false, List, [], ◌∷◌, ◌++◌, Option, none,
  some, length, map, ◌==◌, if◌then◌else◌, arith, length-append,
}
use energy_chain.Shared.Text.{Text, text_eq, lower}

-- `at_most a b` is `strings.Compare(hex(a), hex(b)) <= 0`.
pub record MerkleHash : Type 1 where
  pub Hash : Type 0
  pub keccak : Text → Hash
  pub keccak_pair : Hash → Hash → Hash
  pub hex : Hash → Text
  pub at_most : Hash → Hash → Bool

-- `strings.TrimPrefix(s, "0x")`
unfoldable pub trim_0x : Text → Text
trim_0x [] = []
trim_0x (a ∷ []) = a ∷ []
trim_0x (a ∷ (b ∷ s)) = if a == b'0' then (if b == b'x' then s else a ∷ b ∷ s) else a ∷ b ∷ s

module _ (k : MerkleHash) where
  open k use {Hash, keccak, keccak_pair, hex, at_most}

  -- `hashPair`
  unfoldable pub hash_pair : Hash → Hash → Hash
  hash_pair a b = if at_most a b then keccak_pair a b else keccak_pair b a

  -- The next level: a hash without a partner is paired with itself.
  unfoldable pub next_level : List Hash → List Hash
  next_level [] = []
  next_level (a ∷ []) = hash_pair a a ∷ []
  next_level (a ∷ (b ∷ hs)) = hash_pair a b ∷ next_level hs

  -- `computeMerkleRoot`, on fuel: `none` where it would recur for ever.
  unfoldable pub compute_merkle_root : ℕ → List Hash → Option Hash
  compute_merkle_root zero leaves = none
  compute_merkle_root (suc fuel) [] = compute_merkle_root fuel []
  compute_merkle_root (suc fuel) (a ∷ []) = some a
  compute_merkle_root (suc fuel) (a ∷ (b ∷ hs)) =
      compute_merkle_root fuel (next_level (a ∷ (b ∷ hs)))

  unfoldable pub matches_root : Option Hash → Text → Bool
  matches_root none declared = false
  matches_root (some root) declared = text_eq (hex root) (trim_0x (lower declared))

  -- `verifyMerkleRoot` on the hashes of the items.
  unfoldable pub verify_merkle_root : List Text → Text → Bool
  verify_merkle_root [] declared = false
  verify_merkle_root (h ∷ hashes) declared =
      matches_root (compute_merkle_root (length (h ∷ hashes)) (map (λ x. keccak x) (h ∷ hashes)))
        declared

  next_level-le : (hs : List Hash) → length (next_level hs) ≤ length hs
  unfolding next_level
  next_level-le [] = omega arith
  next_level-le (a ∷ []) = omega arith
  next_level-le (a ∷ (b ∷ hs)) = omega (arith, next_level-le hs)

  -- On as much fuel as there are leaves, or more, there is a root, always the same.
  pub root-found :
      (n : ℕ) (a : Hash) (hs : List Hash)
      → length (a ∷ hs) ≤ n
      → (r : Hash) × ((m : ℕ) → length (a ∷ hs) ≤ m → compute_merkle_root m (a ∷ hs) ≡ some r)
  unfolding next_level compute_merkle_root
  root-found zero a hs le = elim (none_left le) [ ]
    where
      none_left : {l : ℕ} → suc l ≤ 0 → 1 ≤ 0
      none_left le = omega (arith, le)
  root-found (suc n) a [] le = (a, λ m le. single a m le)
    where
      single : (a : Hash) (m : ℕ) → 1 ≤ m → compute_merkle_root m (a ∷ []) ≡ some a
      single a zero le = ground arith
      single a (suc m) le = refl
  root-found (suc n) a (b ∷ hs) le =
      let (r, found) =
        root-found n (hash_pair a b) (next_level hs) (omega (arith, le, next_level-le hs)) in
      (r, λ m more. climb a b hs r m found more)
    where
      climb :
          (a b : Hash) (hs : List Hash) (r : Hash) (m : ℕ)
          → ((i : ℕ)
              → length (hash_pair a b ∷ next_level hs) ≤ i
              → compute_merkle_root i (hash_pair a b ∷ next_level hs) ≡ some r)
          → length (a ∷ (b ∷ hs)) ≤ m
          → compute_merkle_root m (a ∷ (b ∷ hs)) ≡ some r
      climb a b hs r zero found more = ground arith
      climb a b hs r (suc m) found more = found m (omega (arith, more, next_level-le hs))

  -- One more leaf behind pairs gives the same next level once or twice.
  next_level-twice :
      (hs : List Hash) (x : Hash)
      → length hs % 2 ≡ 0
      → next_level (hs ++ (x ∷ [])) ≡ next_level (hs ++ (x ∷ (x ∷ [])))
  unfolding next_level
  next_level-twice [] x even = refl
  next_level-twice (a ∷ []) x even = ground arith
  next_level-twice (a ∷ (b ∷ hs)) x even =
      ap (λ l. hash_pair a b ∷ l) (next_level-twice hs x (omega (arith, even)))

  next-twice :
      (a b x : Hash) (hs : List Hash) (n : ℕ)
      → length hs % 2 ≡ 0
      → compute_merkle_root n (a ∷ (b ∷ (hs ++ (x ∷ (x ∷ [])))))
        ≡ compute_merkle_root n (a ∷ (b ∷ (hs ++ (x ∷ []))))
  unfolding compute_merkle_root next_level
  next-twice a b x hs zero even = refl
  next-twice a b x hs (suc n) even =
      ap (λ l. compute_merkle_root n (hash_pair a b ∷ l)) (sym (next_level-twice hs x even))

  root-twice :
      (a b x : Hash) (hs : List Hash) (m n : ℕ)
      → length hs % 2 ≡ 0
      → length (a ∷ (b ∷ (hs ++ (x ∷ [])))) ≤ m
      → length (a ∷ (b ∷ (hs ++ (x ∷ [])))) ≤ n
      → compute_merkle_root m (a ∷ (b ∷ (hs ++ (x ∷ []))))
        ≡ compute_merkle_root n (a ∷ (b ∷ (hs ++ (x ∷ (x ∷ [])))))
  root-twice a b x hs m n even lm ln =
      let leaves = hs ++ (x ∷ []) in
      let (r, found) = root-found (length (a ∷ (b ∷ leaves))) a (b ∷ leaves) (omega arith) in
      found m lm ∙ sym (next-twice a b x hs n even ∙ found n ln)

map-append : {A B : Type 0} (f : A → B) (l m : List A) → map f (l ++ m) ≡ map f l ++ map f m
map-append f [] m = refl
map-append f (x ∷ l) m = ap (λ r. f x ∷ r) (map-append f l m)

length-map : {A B : Type 0} (f : A → B) (l : List A) → length (map f l) ≡ length l
length-map f [] = refl
length-map f (x ∷ l) = ap suc (length-map f l)

-- For an even number of items, at least two, and one more: exactly the roots that are accepted for
-- them are accepted for the batch that has the last item twice, so that a root does not tell the two
-- batches apart.
pub verify_merkle_root-twice :
    (k : MerkleHash) (a b : Text) (hashes : List Text) (h root : Text)
    → length hashes % 2 ≡ 0
    → verify_merkle_root k (a ∷ (b ∷ (hashes ++ (h ∷ [])))) root
      ≡ verify_merkle_root k (a ∷ (b ∷ (hashes ++ (h ∷ (h ∷ []))))) root
unfolding verify_merkle_root
verify_merkle_root-twice k a b hashes h root even =
    let f = (λ (t : Text). k.keccak t) in
    let hs = map f hashes in
    let m = length (a ∷ (b ∷ (hashes ++ (h ∷ [])))) in
    let n = length (a ∷ (b ∷ (hashes ++ (h ∷ (h ∷ []))))) in
    ap (λ o. matches_root k o root)
      (ap (λ l. compute_merkle_root k m (f a ∷ (f b ∷ l))) (map-append f hashes (h ∷ []))
        ∙ (root-twice k (f a) (f b) (f h) hs m n (omega (arith, even, length-map f hashes))
              (omega (
                arith,
                length-map f hashes,
                length-append hs (f h ∷ []),
                length-append hashes (h ∷ []),
              ))
              (omega (
                arith,
                length-map f hashes,
                length-append hs (f h ∷ []),
                length-append hashes (h ∷ (h ∷ [])),
              ))
            ∙ sym (
                ap (λ l. compute_merkle_root k n (f a ∷ (f b ∷ l)))
                  (map-append f hashes (h ∷ (h ∷ []))))))
