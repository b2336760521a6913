-- ===== src/Chain/Energy/History.antt =====
-- What the messages of chain/x/energy/keeper/msg_server.go do to the records that are stored.
use mathlib.Core.Option
use energy_chain.Shared.{
  not, leb, map, if◌then◌else◌, ℕ, suc, ◌+◌, ◌%◌, ◌^◌, ◌≤◌, ◌<◌, ◌≡◌, ◌↔◌, ap, ◌∙◌, subst, Bool,
  true, false, List, [], ◌∷◌, ◌++◌, Option, none, some, length, arith,
}
use mathlib.Core.Option.{none-ne-some, some-injective}
use energy_chain.Shared.Text.{Text}
use energy_chain.Chain.Energy.Merkle.{MerkleHash, verify_merkle_root}
use mathlib.Core.List.{Memᴰ}
use energy_chain.Chain.Energy.Queries.{get_energy_data_by_category}
use energy_chain.Chain.Energy.Listed.{IsListed}
use energy_chain.Chain.Energy.ByCategory.{IsOfCategory, category_iff}
use energy_chain.Chain.Kv.{other_kind, get-set, get-set_other}
use energy_chain.Chain.Energy.Store.{EnergyData, BatchSubmission, batch_value, KvStore}
use energy_chain.Chain.Energy.{
  get_energy_data_key, get_energy_by_category_key, get_energy_by_submitter_key,
  get_batch_submission_key, counter, next_seq, energy_id, generate_id, put_energy_data, record_of,
  stored_record, decoded, get_energy_data, put_batch, Block, BatchItem, Message, submits,
  submits_batch, data_of, store_item, is_allowed_submitter, get_params, submit_energy_data,
  store_items, batch_submit, handle, or_before, run, ids_of, total_ids,
}
use energy_chain.Chain.Energy.Records.{
  IsFresh, KeepsRecords, Advances, Advances-trans, item-Advances, items-Advances,
  elsewhere-Advances, generate_id-Advances,
}

-- The same with the counter at most `m` further.
abbrev AdvancesUpTo : KvStore → ℕ → KvStore → Type 0
AdvancesUpTo s m t = (n : ℕ) × (n ≤ m) × Advances s n t

unchanged : (s : KvStore) (m : ℕ) → IsFresh s → AdvancesUpTo s m s
unchanged s m fresh = (0, omega arith, ((λ id d e. e), fresh, omega arith, (λ right. right)))

refused :
    (c : Bool) (o : Option KvStore) (s : KvStore) (m : ℕ)
    → IsFresh s
    → AdvancesUpTo s m (or_before o s)
    → AdvancesUpTo s m (or_before (if c then none else o) s)
unfolding or_before
refused true o s m fresh done = unchanged s m fresh
refused false o s m fresh done = done

allowed :
    (c : Bool) (t s : KvStore) (m : ℕ)
    → IsFresh s
    → AdvancesUpTo s m t
    → AdvancesUpTo s m (or_before (if c then some t else none) s)
unfolding or_before
allowed true t s m fresh done = done
allowed false t s m fresh done = unchanged s m fresh

batch-Advances :
    (b : Block) (submitter category : Text) (items : List BatchItem) (batch : BatchSubmission)
    → (s : KvStore) → IsFresh s
    → counter s + suc (length items) < 2 ^ 64
    → AdvancesUpTo s
        (suc (length items))
        (put_batch batch (store_items b submitter category items (generate_id s).1))
unfolding put_batch get_batch_submission_key
batch-Advances b submitter category items batch s fresh room =
    let own = generate_id-Advances s fresh (omega (arith, room)) in
    let t = (generate_id s).1 in
    let each = items-Advances b submitter category items t own.1 (omega (arith, room, own.2)) in
    let u = store_items b submitter category items t in
    let last =
      elsewhere-Advances 4 batch.id (batch_value batch) u (omega arith) (omega arith) (omega arith)
        each.1 in
    let both = Advances-trans s t u 1 (length items) own each in
    let all = Advances-trans s u _ (1 + length items) 0 both last in
    (suc (length items), omega arith, (all.0, all.1, omega (arith, all.2), all.3))

module _ (k : MerkleHash) where
  handle-AdvancesUpTo :
      (b : Block) (message : Message) (s : KvStore)
      → IsFresh s
      → counter s + ids_of message < 2 ^ 64
      → AdvancesUpTo s (ids_of message) (or_before (handle k b message s) s)
  unfolding handle submit_energy_data batch_submit ids_of or_before put_batch
  handle-AdvancesUpTo b (submits submitter category data_hash metadata) s fresh room =
      let item : BatchItem = record { data_hash = data_hash; metadata = metadata } in
      allowed (is_allowed_submitter submitter s) (store_item b submitter category item s) s 1 fresh
        (1, omega arith, item-Advances b submitter category item s fresh room)
  handle-AdvancesUpTo b (submits_batch submitter category merkle_root items) s fresh room =
      let m = suc (length items) in
      refused (not (is_allowed_submitter submitter s)) _ s m fresh (
        refused (not (leb (length items % 2 ^ 32) (get_params s).max_batch_size)) _ s m fresh (
          refused
            (not (verify_merkle_root k (map (λ (i : BatchItem). i.data_hash) items) merkle_root))
            (some _) s m fresh (batch-Advances b submitter category items _ s fresh room)))

  run-AdvancesUpTo :
      (messages : List (Block × Message)) (s : KvStore)
      → IsFresh s
      → counter s + total_ids messages < 2 ^ 64
      → AdvancesUpTo s (total_ids messages) (run k messages s)
  unfolding run total_ids
  run-AdvancesUpTo [] s fresh room = unchanged s 0 fresh
  run-AdvancesUpTo ((b, message) ∷ messages) s fresh room =
      let t = or_before (handle k b message s) s in
      let (n, le, first) = handle-AdvancesUpTo b message s fresh (omega (arith, room)) in
      let (m, le2, rest) = run-AdvancesUpTo messages t first.1 (omega (arith, room, le, first.2)) in
      (n + m, omega (arith, le, le2), Advances-trans s t _ n m first rest)

  -- Over any messages, on a store in which no record has an id that is still to be given, and while the
  -- counter has room for all their ids: every record that is stored stays as it is, and no record
  -- gets an id that is still to be given.
  pub run-KeepsRecords :
      (messages : List (Block × Message)) (s : KvStore)
      → IsFresh s
      → counter s + total_ids messages < 2 ^ 64
      → KeepsRecords s (run k messages s) × IsFresh (run k messages s)
  run-KeepsRecords messages s fresh room =
      let (n, le, all) = run-AdvancesUpTo messages s fresh room in (all.0, all.1)

  -- On a store in which no record has an id that is still to be given and whose index is right, and after any
  -- messages for whose ids the counter has room: what is listed for a category are exactly the
  -- records that were given that category, or one that begins with it and a zero byte, each as
  -- encoding/json gives it back.
  pub get_energy_data_by_category_iff :
      (json : Text → Text) (messages : List (Block × Message)) (s : KvStore) (category : Text)
      (d : EnergyData)
      → IsFresh s
      → IsListed s
      → counter s + total_ids messages < 2 ^ 64
      → Memᴰ d (get_energy_data_by_category json category (run k messages s))
        ↔ IsOfCategory json category (run k messages s) d
  get_energy_data_by_category_iff json messages s category d fresh right room =
      let (n, le, all) = run-AdvancesUpTo messages s fresh room in
      category_iff json (run k messages s) category d (all.3 right)

pub data_of_item :
    (b : Block) (submitter category : Text) (item : BatchItem) (s : KvStore)
    → stored_record (energy_id (next_seq s)) (store_item b submitter category item s)
      ≡ some (data_of b (energy_id (next_seq s)) submitter category item)
unfolding store_item put_energy_data generate_id stored_record get_energy_data_key
    get_energy_by_category_key get_energy_by_submitter_key data_of record_of
data_of_item b submitter category item s =
    let key = 1 ∷ energy_id (next_seq s) in
    ap record_of (
      get-set_other (3 ∷ submitter ++ (0 ∷ energy_id (next_seq s))) key _ _
        (other_kind 3 1 _ _ (omega arith))
      ∙ (get-set_other (2 ∷ category ++ (0 ∷ energy_id (next_seq s))) key _ _
            (other_kind 2 1 _ _ (omega arith))
          ∙ get-set key _ _))

-- The store of a test that passed.
pub store_of_accepted : (c : Bool) (u t : KvStore) → (if c then some u else none) ≡ some t → u ≡ t
store_of_accepted true u t e = some-injective u t e
store_of_accepted false u t e = elim (none-ne-some t e) [ ]

-- A submission that is accepted, on a store in which no record has an id that is still to be given:
-- its record is found under the id it was given, with the submitter, the category, the hash, the
-- metadata and the block of the message, at once and after any further messages for whose ids the
-- counter has room; its texts are those that encoding/json gives back of the message's.
pub submit_energy_data-get_energy_data :
    (json : Text → Text) (k : MerkleHash) (b : Block) (submitter category : Text) (item : BatchItem)
    (s t : KvStore)
    → (later : List (Block × Message)) → IsFresh s
    → counter s + suc (total_ids later) < 2 ^ 64
    → submit_energy_data b submitter category item s ≡ some t
    → get_energy_data json (energy_id (next_seq s)) (run k later t)
      ≡ some (decoded json (data_of b (energy_id (next_seq s)) submitter category item))
unfolding submit_energy_data get_energy_data
submit_energy_data-get_energy_data json k b submitter category item s t later fresh room e =
    let (keeps, next_fresh, seq, index) =
      item-Advances b submitter category item s fresh (omega (arith, room)) in
    let u = store_item b submitter category item s in
    let same = store_of_accepted (is_allowed_submitter submitter s) u t e in
    let all = run-KeepsRecords k later u next_fresh (omega (arith, room, seq)) in
    ap (Option.map (decoded json)) (
      subst
        (λ z.
          stored_record (energy_id (next_seq s)) (run k later z)
          ≡ some (data_of b (energy_id (next_seq s)) submitter category item))
        same (all.0 _ _ (data_of_item b submitter category item s)))
