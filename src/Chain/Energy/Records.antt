-- ===== src/Chain/Energy/Records.antt =====
-- What the steps of a message in chain/x/energy/keeper/keeper.go do to the records that are stored.
use energy_chain.Shared.{
  All, ℕ, suc, ◌+◌, ◌^◌, ◌<◌, ◌≡◌, ◌≢◌, sym, ap, ◌∙◌, List, [], ◌∷◌, ◌++◌, none, some, length, drop,
  arith,
}
use mathlib.Core.Option.{none-ne-some, some-injective}
use energy_chain.Shared.Int.{pos}
use energy_chain.Shared.Text.{Text, codes}
use energy_chain.Shared.Number.{IsDigit, to_string-All, to_string, parse_int, parse_int-to_string}
use energy_chain.Chain.Keys.{IsPlain}
use energy_chain.Chain.Energy.Listed.{IsListed, set_other-IsListed, put_energy_data-IsListed}
use energy_chain.Chain.Kv.{other_kind, get, set, get-set, get-set_other}
use energy_chain.Chain.Energy.Store.{EnergyData, Value, counter_value, KvStore}
use energy_chain.Chain.Energy.{
  get_energy_data_key, get_energy_by_category_key, get_energy_by_submitter_key, data_counter_key,
  counter_of, counter, next_seq, energy_id, generate_id, put_energy_data, record_of, stored_record,
  Block, BatchItem, data_of, store_item, store_items,
}

energy_id-injective : (m n : ℕ) → energy_id m ≡ energy_id n → m ≡ n
unfolding energy_id
energy_id-injective m n e =
    let same : to_string m ≡ to_string n = ap (drop 7) e in
    let parsed = sym (parse_int-to_string m) ∙ (ap parse_int same ∙ parse_int-to_string n) in
    ground (arith, some-injective (pos m) (pos n) parsed)

-- No record has an id that the counter has still to give.
abbrev pub IsFresh : KvStore → Type 0
IsFresh s = (n : ℕ) → counter s < n → n < 2 ^ 64 → get (get_energy_data_key (energy_id n)) s ≡ none

-- Every record is still there, as it was.
abbrev pub KeepsRecords : KvStore → KvStore → Type 0
KeepsRecords s t =
    (id : Text) (d : EnergyData) → stored_record id s ≡ some d → stored_record id t ≡ some d

next_seq-suc : (s : KvStore) → counter s + 1 < 2 ^ 64 → next_seq s ≡ suc (counter s)
unfolding next_seq
next_seq-suc s room = omega (arith, room)

-- A record key after the sets of an item: only the item's own changes.
data_key-of_item :
    (b : Block) (submitter category : Text) (item : BatchItem) (s : KvStore) (id : Text)
    → energy_id (next_seq s) ≢ id
    → get (get_energy_data_key id) (store_item b submitter category item s)
      ≡ get (get_energy_data_key id) s
unfolding store_item put_energy_data generate_id get_energy_data_key get_energy_by_category_key
    get_energy_by_submitter_key data_of
data_key-of_item b submitter category item s id ne =
    get-set_other (3 ∷ submitter ++ (0 ∷ energy_id (next_seq s))) (1 ∷ id) _ _
      (other_kind 3 1 _ _ (omega arith))
    ∙ (get-set_other (2 ∷ category ++ (0 ∷ energy_id (next_seq s))) (1 ∷ id) _ _
          (other_kind 2 1 _ _ (omega arith))
        ∙ (get-set_other (1 ∷ energy_id (next_seq s)) (1 ∷ id) _ _ (λ e. ne (ap (drop 1) e))
            ∙ get-set_other data_counter_key (1 ∷ id) _ s (other_kind 5 1 [] id (omega arith))))

counter-of_item :
    (b : Block) (submitter category : Text) (item : BatchItem) (s : KvStore)
    → counter (store_item b submitter category item s) ≡ next_seq s
unfolding store_item put_energy_data generate_id get_energy_data_key get_energy_by_category_key
    get_energy_by_submitter_key data_of counter counter_of
counter-of_item b submitter category item s = ap counter_of (
    get-set_other (3 ∷ submitter ++ (0 ∷ energy_id (next_seq s))) (5 ∷ []) _ _
      (other_kind 3 5 _ [] (omega arith))
    ∙ (get-set_other (2 ∷ category ++ (0 ∷ energy_id (next_seq s))) (5 ∷ []) _ _
          (other_kind 2 5 _ [] (omega arith))
        ∙ (get-set_other (1 ∷ energy_id (next_seq s)) (5 ∷ []) _ _
              (other_kind 1 5 _ [] (omega arith))
            ∙ get-set data_counter_key _ s)))

digits-IsPlain : (s : Text) → All IsDigit s → IsPlain s
digits-IsPlain [] h = tt
digits-IsPlain (c ∷ s) h = (omega (arith, h.0), digits-IsPlain s h.1)

append-IsPlain : (s u : Text) → IsPlain s → IsPlain u → IsPlain (s ++ u)
append-IsPlain [] u h p = p
append-IsPlain (c ∷ s) u h p = (h.0, append-IsPlain s u h.1 p)

energy_id-IsPlain : (n : ℕ) → IsPlain (energy_id n)
unfolding energy_id
energy_id-IsPlain n =
    append-IsPlain (codes "energy-") (to_string n) (omega arith)
      (digits-IsPlain (to_string n) (to_string-All n))

item-IsListed :
    (b : Block) (submitter category : Text) (item : BatchItem) (s : KvStore)
    → get (get_energy_data_key (energy_id (next_seq s))) s ≡ none
    → IsListed s
    → IsListed (store_item b submitter category item s)
unfolding store_item generate_id data_of stored_record get_energy_data_key record_of
item-IsListed b submitter category item s unused right =
    put_energy_data-IsListed (data_of b (energy_id (next_seq s)) submitter category item) _
      (set_other-IsListed 5 [] _ s (omega arith) (omega arith) right)
      (energy_id-IsPlain (next_seq s))
      (ap record_of (
        get-set_other data_counter_key (1 ∷ energy_id (next_seq s)) _ s
          (other_kind 5 1 [] _ (omega arith))
        ∙ unused))

-- From a store without records ahead of the counter to one with the counter `n` further: every record
-- is kept, again none is ahead, and the index of categories is right if it was.
abbrev pub Advances : KvStore → ℕ → KvStore → Type 0
Advances s n t =
    KeepsRecords s t × IsFresh t × (counter t ≡ counter s + n) × (IsListed s → IsListed t)

pub item-Advances :
    (b : Block) (submitter category : Text) (item : BatchItem) (s : KvStore)
    → IsFresh s
    → counter s + 1 < 2 ^ 64
    → Advances s 1 (store_item b submitter category item s)
unfolding stored_record record_of
item-Advances b submitter category item s fresh room =
    let next = next_seq-suc s room in
    let seq = counter-of_item b submitter category item s ∙ next in
    let unused = fresh (next_seq s) (omega (arith, next)) (omega (arith, next, room)) in
    (
      (λ id d e.
          let ne : energy_id (next_seq s) ≢ id = λ same. none-ne-some d (
            sym (ap record_of unused)
            ∙ (ap (λ z. record_of (get (get_energy_data_key z) s)) same ∙ e)) in
          ap record_of (data_key-of_item b submitter category item s id ne) ∙ e),
      (λ n above small.
          let ne : energy_id (next_seq s) ≢ energy_id n =
            λ same. ahead s n next seq above (energy_id-injective (next_seq s) n same) in
          data_key-of_item b submitter category item s (energy_id n) ne
          ∙ fresh n (omega (arith, seq, above)) small),
      omega (arith, seq),
      (λ right. item-IsListed b submitter category item s unused right),
    )
  where
    ahead :
        (s : KvStore) (n : ℕ) {m : ℕ}
        → next_seq s ≡ suc (counter s)
        → m ≡ suc (counter s)
        → m < n
        → ¬ (next_seq s ≡ n)
    ahead s n next seq above e = omega (arith, next, seq, above, e)

pub Advances-trans :
    (s t u : KvStore) (m n : ℕ) → Advances s m t → Advances t n u → Advances s (m + n) u
Advances-trans s t u m n (keeps, fresh, seq, index) (keeps2, fresh2, seq2, index2) = (
  (λ id d e. keeps2 id d (keeps id d e)),
  fresh2,
  omega (arith, seq, seq2),
  (λ right. index2 (index right)),
)

pub items-Advances :
    (b : Block) (submitter category : Text) (items : List BatchItem) (s : KvStore)
    → IsFresh s
    → counter s + length items < 2 ^ 64
    → Advances s (length items) (store_items b submitter category items s)
unfolding store_items
items-Advances b submitter category [] s fresh room =
    ((λ id d e. e), fresh, omega arith, (λ right. right))
items-Advances b submitter category (item ∷ items) s fresh room =
    let first = item-Advances b submitter category item s fresh (omega (arith, room)) in
    let t = store_item b submitter category item s in
    let rest =
      Advances-trans s t _ 1 (length items) first
        (items-Advances b submitter category items t first.1 (omega (arith, room, first.2))) in
    (rest.0, rest.1, omega (arith, rest.2), rest.3)

-- A store that differs only at a key of another kind.
pub elsewhere-Advances :
    (kind : ℕ) (key : Text) (v : Value) (s : KvStore)
    → kind ≢ 1
    → kind ≢ 2
    → kind ≢ 5
    → IsFresh s
    → Advances s 0 (set (kind ∷ key) v s)
unfolding stored_record get_energy_data_key counter
elsewhere-Advances kind key v s record_kind index_kind counter_kind fresh =
    let seq =
      ap counter_of
        (get-set_other (kind ∷ key) data_counter_key v s (other_kind kind 5 key [] counter_kind)) in
    (
      (λ id d e.
          ap record_of
            (get-set_other (kind ∷ key) (1 ∷ id) v s (other_kind kind 1 key id record_kind))
          ∙ e),
      (λ n above small.
          get-set_other (kind ∷ key) (1 ∷ energy_id n) v s
            (other_kind kind 1 key (energy_id n) record_kind)
          ∙ fresh n (omega (arith, seq, above)) small),
      omega (arith, seq),
      (λ right. set_other-IsListed kind key v s record_kind index_kind right),
    )

pub generate_id-Advances :
    (s : KvStore) → IsFresh s → counter s + 1 < 2 ^ 64 → Advances s 1 (generate_id s).1
unfolding generate_id stored_record get_energy_data_key counter counter_of
generate_id-Advances s fresh room =
    let next = next_seq-suc s room in
    let seq = ap counter_of (get-set data_counter_key (counter_value (next_seq s)) s) ∙ next in
    (
      (λ id d e.
          ap record_of
            (get-set_other data_counter_key (1 ∷ id) _ s (other_kind 5 1 [] id (omega arith)))
          ∙ e),
      (λ n above small.
          get-set_other data_counter_key (1 ∷ energy_id n) _ s
            (other_kind 5 1 [] (energy_id n) (omega arith))
          ∙ fresh n (omega (arith, seq, above)) small),
      omega (arith, seq),
      (λ right. set_other-IsListed 5 [] _ s (omega arith) (omega arith) right),
    )
