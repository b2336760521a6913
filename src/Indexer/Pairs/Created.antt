-- ===== src/Indexer/Pairs/Created.antt =====
-- `loadExistingPairs`, `ensureToken` and `handlePairCreated` on the set of tracked pairs.
use energy_chain.Shared.{
  ℕ, ◌≡◌, refl, Bool, true, false, List, [], ◌∷◌, inl, inr, All-append, Bool-cases, if◌then◌else◌,
  arith,
}
use energy_chain.Shared.Text.{Text, text_eq_refl, lower, lower_idem}
use energy_chain.Indexer.Data.{write, upsert_pair, Env, World}
use energy_chain.Indexer.Action.{modify, Result, pure, ok, threw, asked, send, ◌>>◌, ◌>>=◌, gets}
use energy_chain.Indexer.Moves.{Moves, moves_rules, Leaves, Leaves-bind}
use energy_chain.Indexer.Pairs.{has, add, track, register_token, ensure_token, handle_pair_created}
use energy_chain.Indexer.Pairs.Tracked.{
  Tracks, Tracks-IsFrame, IsLower, IsBacked, upserted, has-add, has-add_of_has, add-IsAddressSet,
}

add-IsBacked :
    (base : List Text) (w : World) (a t0 t1 : Text) (n : ℕ)
    → IsBacked base w
    → IsBacked base (record (asked (write (upsert_pair a t0 t1 n) true) w) {
      tracked_pairs = add w.tracked_pairs a;
    })
unfolding add upserted
add-IsBacked base w a t0 t1 n h =
    let later = (Tracks-IsFrame.asks (write (upsert_pair a t0 t1 n) true) w).backed base h in
    elim (Bool-cases (has w.tracked_pairs a)) [
      | inl old ↦ rw old later
      | inr new ↦
          rw new (All-append _ w.tracked_pairs (a ∷ []) later (ground (arith, text_eq_refl a), tt))
    ]

module _ (env : Env) where
  register_token-Tracks : (addr : Text) → Moves Tracks (register_token env addr)
  unfolding register_token
  register_token-Tracks addr = search (moves_rules, Tracks-IsFrame)

  ensure_token-Tracks : (address : Text) → Moves Tracks (ensure_token env address)
  unfolding ensure_token
  ensure_token-Tracks address = search (moves_rules, Tracks-IsFrame, register_token-Tracks) depth 8

  after_upsert :
      (a t0 t1 : Text) (n : ℕ) (w : World) (taken : Bool)
      → IsLower a
      → let w' = asked (write (upsert_pair a t0 t1 n) taken) w in
        Tracks w
          (elim (if taken then ok tt else threw)
            as (λ (_ : Result (Unit {0})). Result (Unit {0}) × World) [
              | ok _ ↦ track a w'
              | threw ↦ (threw, w')
            ]).1
  unfolding track modify
  after_upsert a t0 t1 n w true l = record {
    kept = λ b h. has-add_of_has w.tracked_pairs a b h;
    addresses = λ h. add-IsAddressSet w.tracked_pairs a h l;
    backed = λ base h. add-IsBacked base w a t0 t1 n h;
    last = refl;
  }
  after_upsert a t0 t1 n w false l = Tracks-IsFrame.asks _ w

  -- A pair is tracked once the database has taken it.
  upsert_then_track-Tracks :
      (a t0 t1 : Text) (n : ℕ)
      → Moves Tracks (send env (upsert_pair (lower a) t0 t1 n) >> track (lower a))
  unfolding send track ◌>>=◌ modify
  upsert_then_track-Tracks a t0 t1 n = record {
    at = λ w.
        after_upsert (lower a) t0 t1 n w (env.write_reply w.history (upsert_pair (lower a) t0 t1 n))
          (lower_idem a);
  }

  pub handle_pair_created-Tracks :
      (t0 t1 pair : Text) (n : ℕ) → Moves Tracks (handle_pair_created env t0 t1 pair n)
  unfolding handle_pair_created
  handle_pair_created-Tracks t0 t1 pair n =
      search (moves_rules, Tracks-IsFrame, ensure_token-Tracks, upsert_then_track-Tracks) depth 10

  -- A pair that is tracked already is left alone: nothing is asked and nothing is written.
  pub handle_pair_created-known :
      (t0 t1 pair : Text) (n : ℕ) (w : World)
      → has w.tracked_pairs (lower pair) ≡ true
      → handle_pair_created env t0 t1 pair n w ≡ (ok tt, w)
  unfolding handle_pair_created ◌>>=◌ gets pure
  handle_pair_created-known t0 t1 pair n w known = rw known

  track-has : (addr : Text) → Leaves (λ w. has w.tracked_pairs addr ≡ true) (track addr)
  unfolding track modify
  track-has addr = record { at = λ w u e. has-add w.tracked_pairs addr }

  -- If the handler returns, the pair is tracked under its address in lower case.
  pub handle_pair_created-tracked :
      (t0 t1 pair : Text) (n : ℕ) (w : World)
      → (handle_pair_created env t0 t1 pair n w).0 ≡ ok tt
      → has (handle_pair_created env t0 t1 pair n w).1.tracked_pairs (lower pair) ≡ true
  unfolding handle_pair_created ◌>>=◌ gets pure
  handle_pair_created-tracked t0 t1 pair n w =
      elim (Bool-cases (has w.tracked_pairs (lower pair))) [
        | inl known ↦ rw known (λ e. known)
        | inr unknown ↦ rw unknown (λ e.
            (Leaves-bind (ensure_token env t0) (λ _. Leaves-bind (ensure_token env t1) (λ _.
                Leaves-bind (send env (upsert_pair (lower pair) (lower t0) (lower t1) n))
                  (λ _. track-has (lower pair))))).at
              w tt e)
      ]

  -- If the handler returns, the pair is tracked under its address in lower case, and a second call
  -- for the same pair, with any tokens and block, returns and changes nothing: no call is made.
  pub handle_pair_created-idempotent :
      (t0 t1 pair : Text) (n : ℕ) (u0 u1 : Text) (m : ℕ) (w : World)
      → (handle_pair_created env t0 t1 pair n w).0 ≡ ok tt
      → let w' = (handle_pair_created env t0 t1 pair n w).1 in
        (has w'.tracked_pairs (lower pair) ≡ true)
        × (handle_pair_created env u0 u1 pair m w' ≡ (ok tt, w'))
  handle_pair_created-idempotent t0 t1 pair n u0 u1 m w done =
      let tracked = handle_pair_created-tracked t0 t1 pair n w done in
      (
        tracked,
        handle_pair_created-known u0 u1 pair m (handle_pair_created env t0 t1 pair n w).1 tracked,
      )
