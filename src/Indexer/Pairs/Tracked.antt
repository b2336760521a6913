-- ===== src/Indexer/Pairs/Tracked.antt =====
-- The set of tracked pairs: each address once, in lower case, and backed by the database.
use energy_chain.Shared.{
  ◌≡◌, refl, ◌∙◌, Bool, true, false, ◌||◌, List, [], ◌∷◌, ◌++◌, inl, inr, All, All-append,
  Bool-cases, arith,
}
use energy_chain.Shared.Text.{Text, text_eq, text_eq_iff, text_eq_refl, lower}
use energy_chain.Indexer.Data.{Request, write, upsert_pair, History, World}
use energy_chain.Indexer.Moves.{IsFrame}
use energy_chain.Indexer.Pairs.{has, add}

abbrev pub IsUnique : List Text → Type 0
IsUnique [] = Unit
IsUnique (a ∷ s) = (has s a ≡ false) × IsUnique s

abbrev pub IsLower : Text → Type 0
IsLower a = lower a ≡ a

-- Each address once, and all of them in lower case.
abbrev pub IsAddressSet : List Text → Type 0
IsAddressSet s = IsUnique s × All IsLower s

pub has-append : (s t : List Text) (a : Text) → has (s ++ t) a ≡ (has s a || has t a)
unfolding has
has-append [] t a = refl
has-append (b ∷ s) t a = ground (arith, has-append s t a)

pub has-add : (s : List Text) (a : Text) → has (add s a) a ≡ true
unfolding has add
has-add s a = ground (arith, has-append s (a ∷ []) a, text_eq_refl a)

pub has-add_of_has : (s : List Text) (a b : Text) → has s b ≡ true → has (add s a) b ≡ true
unfolding has add
has-add_of_has s a b h = ground (arith, has-append s (a ∷ []) b)

IsUnique-snoc : (s : List Text) (a : Text) → IsUnique s → has s a ≡ false → IsUnique (s ++ a ∷ [])
unfolding has
IsUnique-snoc [] a u h = (refl, tt)
IsUnique-snoc (b ∷ s) a u h =
    ground (arith, IsUnique-snoc s a u.1, has-append s (a ∷ []) b, text_eq_iff a b, text_eq_iff b a)

pub add-IsAddressSet :
    (s : List Text) (a : Text) → IsAddressSet s → IsLower a → IsAddressSet (add s a)
unfolding add
add-IsAddressSet s a (u, l) k = elim (Bool-cases (has s a)) [
  | inl old ↦ rw old (u, l)
  | inr new ↦ rw new (IsUnique-snoc s a u new, All-append IsLower s (a ∷ []) l (k, tt))
]

-- The database took an upsert of the pair.
unfoldable pub upserted : Text → History → Bool
upserted a [] = false
upserted a (write (upsert_pair b _ _ _) true ∷ h) = text_eq b a || upserted a h
upserted a (_ ∷ h) = upserted a h

-- Every tracked address was tracked before, or the database has taken its upsert.
abbrev pub IsBacked : List Text → World → Type 0
IsBacked base w = All (λ a. (has base a || upserted a w.history) ≡ true) w.tracked_pairs

upserted-cons :
    (a : Text) (r : Request) (h : History) → upserted a h ≡ true → upserted a (r ∷ h) ≡ true
unfolding upserted
upserted-cons a r h e = ground arith

All-backed :
    (base : List Text) (r : Request) (h : History) (s : List Text)
    → All (λ a. (has base a || upserted a h) ≡ true) s
    → All (λ a. (has base a || upserted a (r ∷ h)) ≡ true) s
All-backed base r h [] k = tt
All-backed base r h (a ∷ s) (p, k) = (ground (arith, upserted-cons a r h), All-backed base r h s k)

-- What a step of the indexer does to the tracked pairs: none is lost, the set stays a set of
-- addresses in lower case, backed by the database, and the block of the poll is left alone.
pub record Tracks (w w' : World) : Type 0 where
  pub kept : (a : Text) → has w.tracked_pairs a ≡ true → has w'.tracked_pairs a ≡ true
  pub addresses : IsAddressSet w.tracked_pairs → IsAddressSet w'.tracked_pairs
  pub backed : (base : List Text) → IsBacked base w → IsBacked base w'
  pub last : w'.last_processed ≡ w.last_processed

pub Tracks-IsFrame : IsFrame Tracks
Tracks-IsFrame = record {
  same = λ w. record { kept = λ a h. h; addresses = λ h. h; backed = λ base h. h; last = refl };
  then_after = λ u v w p q. record {
    kept = λ a h. q.kept a (p.kept a h);
    addresses = λ h. q.addresses (p.addresses h);
    backed = λ base h. q.backed base (p.backed base h);
    last = q.last ∙ p.last;
  };
  asks = λ r w. record {
    kept = λ a h. h;
    addresses = λ h. h;
    backed = λ base h. All-backed base r w.history w.tracked_pairs h;
    last = refl;
  };
}
