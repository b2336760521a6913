-- ===== src/Price/Rounds/Others.antt =====
-- The intervals that no round makes candles of.
use energy_chain.Shared.{ℕ, zero, suc, ◌≡◌, refl, ◌∙◌, false, List, [], ◌∷◌, All, take, arith}
use energy_chain.Shared.Text.{Text, codes, text_eq}
use energy_chain.Price.Float.{Float}
use energy_chain.Price.Rounds.{
  Job, update_stats, generate, jobs, Db, run_job, run_jobs, stats_round,
}

-- The job does not make candles of the interval.
abbrev Spares : Text → Job → Type 0
Spares i (update_stats p) = Unit
Spares i (generate p j) = text_eq i j ≡ false

take-Spares : (i : Text) (n : ℕ) (js : List Job) → All (Spares i) js → All (Spares i) (take n js)
take-Spares i zero js h = tt
take-Spares i (suc n) [] h = tt
take-Spares i (suc n) (j ∷ js) h = (h.0, take-Spares i n js h.1)

-- The interval is none of a round.
abbrev pub IsOther : Text → Type 0
IsOther i =
    (text_eq i (codes "1m") ≡ false)
    × (text_eq i (codes "5m") ≡ false)
    × (text_eq i (codes "1h") ≡ false)
    × (text_eq i (codes "1d") ≡ false)

jobs-Spares : (i : Text) (pairs : List Text) → IsOther i → All (Spares i) (jobs pairs)
unfolding jobs
jobs-Spares i [] h = tt
jobs-Spares i (p ∷ pairs) (m1, m5, h1, d1) =
    (tt, (m1, (m5, (h1, (d1, jobs-Spares i pairs (m1, m5, h1, d1))))))

module _ (num : Float) where
  run_job-Spares :
      (i : Text) (now : ℕ) (j : Job) (db : Db num) (p : Text)
      → Spares i j
      → (run_job num now j db).candles p i ≡ db.candles p i
  unfolding run_job
  run_job-Spares i now (update_stats q) db p h = refl
  run_job-Spares i now (generate q j) db p h = ground arith

  run_jobs-Spares :
      (i : Text) (now : ℕ) (js : List Job) (db : Db num) (p : Text)
      → All (Spares i) js
      → (run_jobs num now js db).candles p i ≡ db.candles p i
  unfolding run_jobs
  run_jobs-Spares i now [] db p h = refl
  run_jobs-Spares i now (j ∷ js) db p h =
      run_jobs-Spares i now js (run_job num now j db) p h.1 ∙ run_job-Spares i now j db p h.0

  -- Rounds at their times, each with the number of calls that it comes to.
  abbrev pub rounds : List (ℕ × ℕ) → Db num → Db num
  rounds [] db = db
  rounds ((now, n) ∷ rs) db = rounds rs (stats_round num now n db)

-- No rounds, complete or cut off by an exception, change the candles of an interval that is not one
-- of the four of the source, for any pair: they are what they were at the start.
rounds-spare :
    (num : Float) (rs : List (ℕ × ℕ)) (db : Db num) (pair interval : Text)
    → IsOther interval
    → (rounds num rs db).candles pair interval ≡ db.candles pair interval
unfolding stats_round
rounds-spare num [] db pair interval h = refl
rounds-spare num ((now, n) ∷ rs) db pair interval h =
    rounds-spare num rs (stats_round num now n db) pair interval h
    ∙ run_jobs-Spares num interval now (take n (jobs db.pairs)) db pair
        (take-Spares interval n (jobs db.pairs) (jobs-Spares interval db.pairs h))
