-- ===== src/Indexer/Moves.antt =====
-- What holds of every step of an action, whatever the answers: a relation between the worlds before
-- and after that each call respects.
use energy_chain.Shared.{
  inl, inr, Option-cases, ◌≡◌, Bool, true, false, List, [], ◌∷◌, Option, if◌then◌else◌,
}
use energy_chain.Indexer.Data.{Request, Write, write, History, Env, World}
use energy_chain.Indexer.Action.{
  Result, ok, threw, Action, pure, gets, catch, ◌>>=◌, asked, call, call_or, send, for_each,
}

-- A relation that is kept by doing nothing, by one thing after another, and by a call.
pub record IsFrame (R : World → World → Type 0) : Type 0 where
  pub same : (w : World) → R w w
  pub then_after : (u v w : World) → R u v → R v w → R u w
  pub asks : (r : Request) (w : World) → R w (asked r w)

-- The action relates every world to the world that it leaves, also when it throws.
pub record Moves (R : World → World → Type 0) {A : Type 0} (m : Action A) : Type 0 where
  pub at : (w : World) → R w (m w).1

module _ {R : World → World → Type 0} (frame : IsFrame R) where
  after :
      {A B : Type 0} (f : A → Action B) (w : World) (p : Result A × World)
      → R w p.1
      → ((a : A) → Moves R (f a))
      → R w (elim p.0 as (λ _. Result B × World) [ ok a ↦ f a p.1 | threw ↦ (threw, p.1) ]).1
  after f w (ok a, w') h k = frame.then_after w w' _ h ((k a).at w')
  after f w (threw, w') h k = h

  pub Moves-bind :
      {A B : Type 0} {m : Action A} {f : A → Action B}
      → Moves R m
      → ((a : A) → Moves R (f a))
      → Moves R (m >>= f)
  unfolding ◌>>=◌
  Moves-bind {m} {f} h k = record { at = λ w. after f w (m w) (h.at w) k }

  handled :
      {A : Type 0} (n : Action A) (w : World) (p : Result A × World)
      → R w p.1
      → Moves R n
      → R w (elim p.0 as (λ _. Result A × World) [ ok a ↦ (ok a, p.1) | threw ↦ n p.1 ]).1
  handled n w (ok a, w') h k = h
  handled n w (threw, w') h k = frame.then_after w w' _ h (k.at w')

  pub Moves-catch : {A : Type 0} {m n : Action A} → Moves R m → Moves R n → Moves R (catch m n)
  unfolding catch
  Moves-catch {m} {n} h k = record { at = λ w. handled n w (m w) (h.at w) k }

  pub Moves-pure : {A : Type 0} (a : A) → Moves R (pure a)
  unfolding pure
  Moves-pure a = record { at = λ w. frame.same w }

  pub Moves-gets : {A : Type 0} (f : World → A) → Moves R (gets f)
  unfolding gets
  Moves-gets f = record { at = λ w. frame.same w }

  pub Moves-call : {A : Type 0} (r : Request) (reply : History → Option A) → Moves R (call r reply)
  unfolding call
  Moves-call r reply = record {
    at = λ w. elim (Option-cases (reply w.history)) [
      | inl failed ↦ rw (failed, call) (frame.asks r w)
      | inr (a, e) ↦ rw (e, call) (frame.asks r w)
    ];
  }

  pub Moves-call_or :
      {A : Type 0} (r : Request) (reply : History → Option A) (other : A)
      → Moves R (call_or r reply other)
  unfolding call_or
  Moves-call_or r reply other = record {
    at = λ w. elim (Option-cases (reply w.history)) [
      | inl failed ↦ rw (failed, call_or) (frame.asks r w)
      | inr (a, e) ↦ rw (e, call_or) (frame.asks r w)
    ];
  }

  pub Moves-send : (env : Env) (c : Write) → Moves R (send env c)
  unfolding send
  Moves-send env c = record { at = λ w. frame.asks (write c (env.write_reply w.history c)) w }

  pub Moves-if :
      {A : Type 0} (b : Bool) {m n : Action A}
      → Moves R m
      → Moves R n
      → Moves R (if b then m else n)
  Moves-if true h k = h
  Moves-if false h k = k

  pub Moves-for_each :
      {A : Type 0} (xs : List A) {body : A → Action (Unit {0})}
      → ((x : A) → Moves R (body x))
      → Moves R (for_each body xs)
  unfolding for_each
  Moves-for_each [] h = Moves-pure tt
  Moves-for_each (x ∷ xs) h = Moves-bind (h x) (λ _. Moves-for_each xs h)

pub ruleset moves_rules = (
  Moves-bind, Moves-catch, Moves-pure, Moves-gets, Moves-call, Moves-call_or, Moves-send, Moves-if,
  Moves-for_each,
)

-- What holds of the world that an action leaves if it does not throw.
pub record Leaves (Q : World → Type 0) {A : Type 0} (m : Action A) : Type 0 where
  pub at : (w : World) (a : A) → (m w).0 ≡ ok a → Q (m w).1

leaves_after :
    {A B : Type 0} (Q : World → Type 0) (f : A → Action B) (b : B) (p : Result A × World)
    → ((a : A) → Leaves Q (f a))
    → (elim p.0 as (λ _. Result B × World) [ ok a ↦ f a p.1 | threw ↦ (threw, p.1) ]).0 ≡ ok b
    → Q (elim p.0 as (λ _. Result B × World) [ ok a ↦ f a p.1 | threw ↦ (threw, p.1) ]).1
leaves_after Q f b (ok a, w) k e = (k a).at w b e
leaves_after Q f b (threw, w) k e = cc

-- The last step decides.
pub Leaves-bind :
    {A B : Type 0} {Q : World → Type 0} (m : Action A) {f : A → Action B}
    → ((a : A) → Leaves Q (f a))
    → Leaves Q (m >>= f)
unfolding ◌>>=◌
Leaves-bind {Q} m {f} k = record { at = λ w b e. leaves_after Q f b (m w) k e }
