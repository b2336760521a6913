-- ===== src/Scripts/Allowance/Kept.antt =====
-- What the steps of a script keep of its transactions.
use energy_chain.Shared.{
  ℕ, ◌≤◌, ◌≡◌, ◌∙◌, refl, sym, subst, List, ◌∷◌, Option, none, some, Option-cases, inl, inr, arith,
}
use energy_chain.Shared.Text.{Text, text_eq_refl}
use energy_chain.Scripts.Steps.{
  Act, approve, remove_liquidity_eth, get_pair, Contracts, View, AddressView, Node, Script, ◌>>=◌,
  return, expect, Receipt, send, ask, ask_address, try_catch,
}
use energy_chain.Scripts.Allowance.{Pull, taken_of, pulled, allowance, Covers, IsCovered}

module _ (n : Node) (c : Contracts) where
  abbrev pub Covered : List Act → Type 0
  Covered = IsCovered n c

  -- From transactions with the property, whatever the script does, all of them are covered.
  pub record Keeps {A : Type 0} (P : List Act → Type 0) (s : Script A) : Type 0 where
    pub keeps : (acts : List Act) → P acts → Covered ((s acts).0)

  -- Covered transactions that allow at least an amount.
  pub record Allows (p : Pull) (acts : List Act) : Type 0 where
    pub covered : Covered acts
    pub allowed : p.amount ≤ allowance n c p.spender p.token acts

  -- Covered transactions behind which the chain gives an address.
  pub record Answers (view : AddressView) (t : Text) (acts : List Act) : Type 0 where
    pub covered : Covered acts
    pub answered : n.address acts view ≡ some t

  module _ {A B : Type 0} where
    pub bind-Keeps :
        (m : Script A) (f : A → Script B)
        → Keeps Covered m
        → ((a : A) → Keeps Covered (f a))
        → Keeps Covered (m >>= f)
    unfolding ◌>>=◌
    bind-Keeps m f hm hf = record {
      keeps = λ acts h. elim (Option-cases ((m acts).1)) [
        | inl e ↦ rw (e, IsCovered) (hm.keeps acts h)
        | inr (a, e) ↦ rw (e, IsCovered) ((hf a).keeps ((m acts).0) (hm.keeps acts h))
      ];
    }

  module _ {A : Type 0} where
    pub return-Keeps : (a : A) → Keeps Covered (return a)
    unfolding return
    return-Keeps a = record { keeps = λ acts h. h }

    -- The handler may rely on no more than that the transactions are covered.
    pub try_catch-Keeps :
        (P : List Act → Type 0) (body handler : Script A)
        → Keeps P body
        → Keeps Covered handler
        → Keeps P (try_catch body handler)
    unfolding try_catch
    try_catch-Keeps P body handler hb hh = record {
      keeps = λ acts h. elim (Option-cases ((body acts).1)) [
        | inl e ↦ rw (e, IsCovered) (hh.keeps ((body acts).0) (hb.keeps acts h))
        | inr (a, e) ↦ rw (e, IsCovered) (hb.keeps acts h)
      ];
    }

  pub ask-Keeps : (view : View) → Keeps Covered (ask n view)
  unfolding ask
  ask-Keeps view = record { keeps = λ acts h. h }

  pub ask_address-Keeps : (view : AddressView) → Keeps Covered (ask_address n view)
  unfolding ask_address
  ask_address-Keeps view = record { keeps = λ acts h. h }

  -- A transaction by which the router takes nothing.
  pub send-Keeps :
      (act : Act) → ((acts : List Act) → pulled n c acts act ≡ none) → Keeps Covered (send n act)
  unfolding send
  send-Keeps act e = record { keeps = λ acts h. (subst (Covers n c acts) (sym (e acts)) tt, h) }

  allowance-approve :
      (token spender : Text) (amount : ℕ) (acts : List Act)
      → allowance n c spender token (approve token spender amount ∷ acts) ≡ amount
  unfolding allowance
  allowance-approve token spender amount acts = rw (text_eq_refl spender, text_eq_refl token) refl

  approve-Allows :
      (token spender : Text) (amount : ℕ) (acts : List Act)
      → Covered acts
      → Allows
          (record { spender = spender; token = token; amount = amount })
          (approve token spender amount ∷ acts)
  approve-Allows token spender amount acts h = record {
    covered = (tt, h);
    allowed = rw (allowance-approve token spender amount acts) (omega arith);
  }

  module _ {A : Type 0} where
    -- The steps from transactions with a property that leaves them covered.
    module _ (P : List Act → Type 0) (weak : (acts : List Act) → P acts → Covered acts) where
      pub ask_under :
          (view : View) (f : List ℕ → Script A)
          → ((ns : List ℕ) → Keeps P (f ns))
          → Keeps P (ask n view >>= f)
      unfolding ask ◌>>=◌
      ask_under view f hf = record {
        keeps = λ acts h. elim (Option-cases (n.numbers acts view)) [
          | inl e ↦ rw e (weak acts h)
          | inr (ns, e) ↦ rw e ((hf ns).keeps acts h)
        ];
      }

      pub expect_under :
          (x : Option ℕ) (f : ℕ → Script A) → ((k : ℕ) → Keeps P (f k)) → Keeps P (expect x >>= f)
      unfolding expect ◌>>=◌
      expect_under none f hf = record { keeps = λ acts h. weak acts h }
      expect_under (some k) f hf = record { keeps = λ acts h. (hf k).keeps acts h }

    -- An address that is asked for is what the chain gives behind the transactions sent so far.
    pub ask_address_under :
        (view : AddressView) (f : Text → Script A)
        → ((t : Text) → Keeps (Answers view t) (f t))
        → Keeps Covered (ask_address n view >>= f)
    unfolding ask_address ◌>>=◌
    ask_address_under view f hf = record {
      keeps = λ acts h. elim (Option-cases (n.address acts view)) [
        | inl e ↦ rw e h
        | inr (t, e) ↦ rw e ((hf t).keeps acts (record { covered = h; answered = e }))
      ];
    }

    -- A transaction, behind which the others have a property.
    pub send_under :
        (P Q : List Act → Type 0) (act : Act) (f : Receipt → Script A)
        → ((acts : List Act) → P acts → Covered (act ∷ acts) × Q (act ∷ acts))
        → ((r : Receipt) → Keeps Q (f r))
        → Keeps P (send n act >>= f)
    unfolding send ◌>>=◌
    send_under P Q act f step hf = record {
      keeps = λ acts h.
          let (covered, q) = step acts h in
          elim (Option-cases (n.receipt acts act)) [
            | inl e ↦ rw e covered
            | inr (r, e) ↦ rw e ((hf r).keeps (act ∷ acts) q)
          ];
    }

    -- The transaction that takes what is allowed.
    pub pull_Allows :
        (act : Act) (p : Pull) (f : Receipt → Script A)
        → ((acts : List Act) → pulled n c acts act ≡ some p)
        → ((r : Receipt) → Keeps Covered (f r))
        → Keeps (Allows p) (send n act >>= f)
    pull_Allows act p f e = send_under (Allows p) Covered act f (λ acts h.
        let covered : Covered (act ∷ acts) =
          (subst (Covers n c acts) (sym (e acts)) h.allowed, h.covered) in
        (covered, covered))

    -- An approval, and a script that keeps what it allows.
    pub approve_Allows :
        (token spender : Text) (amount : ℕ) (f : Receipt → Script A)
        → ((r : Receipt)
            → Keeps (Allows (record { spender = spender; token = token; amount = amount })) (f r))
        → Keeps Covered (send n (approve token spender amount) >>= f)
    approve_Allows token spender amount f =
        send_under Covered _ (approve token spender amount) f
          (λ acts h. ((tt, h), approve-Allows token spender amount acts h))

    -- The views between an approval and the transaction that uses it.
    pub ask-Allows :
        (view : View) (p : Pull) (f : List ℕ → Script A)
        → ((ns : List ℕ) → Keeps (Allows p) (f ns))
        → Keeps (Allows p) (ask n view >>= f)
    ask-Allows view p = ask_under (Allows p) (λ acts h. h.covered) view

    pub expect-Allows :
        (x : Option ℕ) (p : Pull) (f : ℕ → Script A)
        → ((k : ℕ) → Keeps (Allows p) (f k))
        → Keeps (Allows p) (expect x >>= f)
    expect-Allows x p = expect_under (Allows p) (λ acts h. h.covered) x

    -- The removal of liquidity of a pair that was asked for, behind the approval of its tokens, which
    -- does not change the pair.
    module _
        (steady : (acts : List Act) (token spender : Text) (amount : ℕ) (view : AddressView)
          → n.address (approve token spender amount ∷ acts) view ≡ n.address acts view) where
      pub remove_under :
          (pair router token to : Text) (liquidity least least_eth deadline : ℕ)
          (f : Receipt → Script A)
          → ((r : Receipt) → Keeps Covered (f r))
          → Keeps (Answers (get_pair c.factory token c.wecy) pair) (
              send n (approve pair router liquidity) >>= λ _.
              send n (remove_liquidity_eth router token liquidity least least_eth to deadline)
              >>= f)
      remove_under pair router token to liquidity least least_eth deadline f hf =
          let view = get_pair c.factory token c.wecy in
          let p : Pull = record { spender = router; token = pair; amount = liquidity } in
          send_under (Answers view pair) (λ acts. Allows p acts × (n.address acts view ≡ some pair))
            _ _
            (λ acts h. (
              (tt, h.covered),
              (
                approve-Allows pair router liquidity acts h.covered,
                steady acts pair router liquidity view ∙ h.answered,
              ),
            ))
            (λ _.
              send_under _ Covered _ f
                (λ acts h.
                  let covered : Covered (
                      remove_liquidity_eth router token liquidity least least_eth to deadline
                      ∷ acts) =
                    (
                      subst (λ o. Covers n c acts (taken_of router liquidity o)) (sym h.1)
                          h.0.allowed,
                      h.0.covered,
                    ) in
                  (covered, covered))
                hf)
