-- ===== src/Indexer/Returns.antt =====
-- Actions that return, whatever the world: no exception leaves them.
use energy_chain.Shared.{
  ◌≡◌, ◌∙◌, ap, refl, Bool, true, false, List, [], ◌∷◌, Option, some, inl, inr, Option-cases,
  if◌then◌else◌,
}
use energy_chain.Indexer.Data.{Request, History, World}
use energy_chain.Indexer.Action.{
  Result, ok, threw, Action, pure, gets, modify, catch, asked, bind_ok, ◌>>=◌, call, call_or,
  for_each,
}

pub record Returns {A : Type 0} (m : Action A) : Type 0 where
  pub at : (w : World) → (a : A) × ((m w).0 ≡ ok a)

returned :
    {A B : Type 0} (f : A → Action B) (p : Result A × World)
    → ((a : A) × (p.0 ≡ ok a))
    → ((a : A) → Returns (f a))
    → (b : B) × ((elim p.0 as (λ _. Result B × World) [ ok a ↦ f a p.1 | threw ↦ (threw, p.1) ]).0
        ≡ ok b)
returned f (ok a, w) h k = (k a).at w
returned f (threw, w) h k = let (a, e) = h in cc

pub Returns-bind :
    {A B : Type 0} {m : Action A} {f : A → Action B}
    → Returns m
    → ((a : A) → Returns (f a))
    → Returns (m >>= f)
unfolding ◌>>=◌
Returns-bind {m} {f} h k = record { at = λ w. returned f (m w) (h.at w) k }

caught :
    {A : Type 0} (n : Action A) (p : Result A × World)
    → ((a : A) × (p.0 ≡ ok a))
    → (b : A) × ((elim p.0 as (λ _. Result A × World) [ ok a ↦ (ok a, p.1) | threw ↦ n p.1 ]).0
        ≡ ok b)
caught n (ok a, w) h = (a, refl)
caught n (threw, w) h = let (a, e) = h in cc

pub Returns-catch : {A : Type 0} {m : Action A} (n : Action A) → Returns m → Returns (catch m n)
unfolding catch
Returns-catch {m} n h = record { at = λ w. caught n (m w) (h.at w) }

pub Returns-pure : {A : Type 0} (a : A) → Returns (pure a)
unfolding pure
Returns-pure a = record { at = λ w. (a, refl) }

pub Returns-gets : {A : Type 0} (f : World → A) → Returns (gets f)
unfolding gets
Returns-gets f = record { at = λ w. (f w, refl) }

pub Returns-modify : (f : World → World) → Returns (modify f)
unfolding modify
Returns-modify f = record { at = λ w. (tt, refl) }

-- Every reply is an answer.
pub record Answers {A : Type 0} (reply : History → Option A) : Type 0 where
  pub given : (h : History) → (a : A) × (reply h ≡ some a)

pub Returns-call :
    {A : Type 0} (r : Request) (reply : History → Option A) → Answers reply → Returns (call r reply)
unfolding call
Returns-call r reply answers = record {
  at = λ w. let (a, e) = answers.given w.history in (a, rw (e, call) refl);
}

-- A call behind which the script knows that the reply was given.
pub Returns-call_then :
    {A B : Type 0} (r : Request) (reply : History → Option A) (f : A → Action B)
    → Answers reply
    → ((h : History) (a : A) → reply h ≡ some a → Returns (f a))
    → Returns (call r reply >>= f)
unfolding ◌>>=◌ call
Returns-call_then r reply f answers k = record {
  at = λ w.
      let (a, e) = answers.given w.history in
      let (b, done) = (k w.history a e).at (asked r w) in
      let called : call r reply w ≡ (ok a, asked r w) = rw (call, e) refl in
      (b, ap (λ p. p.0) (bind_ok (call r reply) f a w (asked r w) called) ∙ done);
}

pub Returns-call_or :
    {A : Type 0} (r : Request) (reply : History → Option A) (other : A)
    → Returns (call_or r reply other)
unfolding call_or
Returns-call_or r reply other = record {
  at = λ w. elim (Option-cases (reply w.history)) [
    | inl failed ↦ (other, rw (failed, call_or) refl)
    | inr (a, e) ↦ (a, rw (e, call_or) refl)
  ];
}

pub Returns-if :
    {A : Type 0} (b : Bool) {m n : Action A} → Returns m → Returns n → Returns (if b then m else n)
Returns-if true h k = h
Returns-if false h k = k

pub Returns-for_each :
    {A : Type 0} (xs : List A) {body : A → Action (Unit {0})}
    → ((x : A) → Returns (body x))
    → Returns (for_each body xs)
unfolding for_each
Returns-for_each [] h = Returns-pure tt
Returns-for_each (x ∷ xs) h = Returns-bind (h x) (λ _. Returns-for_each xs h)

pub ruleset returns_rules = (
  Returns-bind, Returns-catch, Returns-pure, Returns-gets, Returns-modify, Returns-call,
  Returns-call_or, Returns-if, Returns-for_each,
)
