-- ===== src/Indexer/Action.antt =====
-- An asynchronous method of the indexer as a function of the world. What was written, and what was
-- asked, stays when an exception is thrown.
use energy_chain.Shared.{ap, ◌≡◌, List, [], ◌∷◌, Option, none, some, if◌then◌else◌}
use energy_chain.Indexer.Data.{Request, Write, write, History, Env, World}

pub data Result (A : Type 0) : Type 0 where
  ok : A → Result A
  threw : Result A

abbrev pub Action : Type 0 → Type 0
Action A = World → Result A × World

module _ {A : Type 0} where
  unfoldable pub pure : A → Action A
  pure a w = (ok a, w)

  unfoldable pub throw : Action A
  throw w = (threw, w)

  unfoldable pub gets : (World → A) → Action A
  gets f w = (ok (f w), w)

  -- `try { … } catch { … }`
  unfoldable pub catch : Action A → Action A → Action A
  catch m handler w = let (r, w') = m w in elim r [ ok a ↦ (ok a, w') | threw ↦ handler w' ]

unfoldable pub modify : (World → World) → Action (Unit {0})
modify f w = (ok tt, f w)

infixl 5 ◌>>=◌ ◌>>◌
unfoldable pub ◌>>=◌ : {A B : Type 0} → Action A → (A → Action B) → Action B
◌>>=◌ m f w = let (r, w') = m w in elim r [ ok a ↦ f a w' | threw ↦ (threw, w') ]

abbrev pub ◌>>◌ : {A B : Type 0} → Action A → Action B → Action B
m >> k = m >>= λ _. k

abbrev pub asked : Request → World → World
asked r w = record w { history = r ∷ w.history }

-- A call that awaits an answer.
unfoldable pub call : {A : Type 0} → Request → (History → Option A) → Action A
call r reply w = elim (reply w.history) [ none ↦ (threw, asked r w) | some a ↦ (ok a, asked r w) ]

-- A call with `.catch(() => other)`.
unfoldable pub call_or : {A : Type 0} → Request → (History → Option A) → A → Action A
call_or r reply other w = elim (reply w.history) [
  | none ↦ (ok other, asked r w)
  | some a ↦ (ok a, asked r w)
]

-- A write that the database takes or refuses.
unfoldable pub send : Env → Write → Action (Unit {0})
send env c w =
    let taken = env.write_reply w.history c in
    (if taken then ok tt else threw, asked (write c taken) w)

-- `for (const x of xs) { await body(x) }`
unfoldable pub for_each : {A : Type 0} → (A → Action (Unit {0})) → List A → Action (Unit {0})
for_each body [] = pure tt
for_each body (x ∷ xs) = body x >> for_each body xs

pub call-some :
    {A : Type 0} (r : Request) (reply : History → Option A) (a : A) (w : World)
    → reply w.history ≡ some a
    → call r reply w ≡ (ok a, asked r w)
unfolding call
call-some r reply a w e = rw (e, call)

pub bind_ok :
    {A B : Type 0} (m : Action A) (f : A → Action B) (a : A) (w w' : World)
    → m w ≡ (ok a, w')
    → (m >>= f) w ≡ f a w'
unfolding ◌>>=◌
bind_ok {A} {B} m f a w w' e =
    ap
      (λ (p : Result A × World). elim p.0 as (λ _. Result B × World) [
        | ok a ↦ f a p.1
        | threw ↦ (threw, p.1)
      ])
      e

pub bind_threw :
    {A B : Type 0} (m : Action A) (f : A → Action B) (w w' : World)
    → m w ≡ (threw, w')
    → (m >>= f) w ≡ (threw, w')
unfolding ◌>>=◌
bind_threw {A} {B} m f w w' e =
    ap
      (λ (p : Result A × World). elim p.0 as (λ _. Result B × World) [
        | ok a ↦ f a p.1
        | threw ↦ (threw, p.1)
      ])
      e

pub call-none :
    {A : Type 0} (r : Request) (reply : History → Option A) (w : World)
    → reply w.history ≡ none
    → call r reply w ≡ (threw, asked r w)
unfolding call
call-none r reply w e = rw (e, call)
