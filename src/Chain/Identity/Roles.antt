-- ===== src/Chain/Identity/Roles.antt =====
-- What any messages of chain/x/identity/keeper/msg_server.go keep of a store.
use energy_chain.Shared.{ℕ, ◌≡◌, sym, subst, List, [], ◌∷◌, some, inl, inr, Option-cases}
use energy_chain.Shared.Text.{Text}
use energy_chain.Chain.Identity.{KvStore, Message, handle, run}
use energy_chain.Chain.Identity.Index.{IsIndexed}
use energy_chain.Chain.Identity.Steps.{IsValid, AreValid, handle_accepted, Change-IsIndexed}

-- A property of stores that every accepted message keeps is kept by any messages.
pub run_inv :
    (authority : Text) (P : KvStore → Type 0)
    → ((now : ℕ) (message : Message) (s t : KvStore)
        → IsIndexed s
        → IsValid message
        → handle authority now message s ≡ some t
        → P s
        → P t)
    → (messages : List (ℕ × Message)) (s : KvStore) → AreValid messages
    → IsIndexed s
    → P s
    → IsIndexed (run authority messages s) × P (run authority messages s)
unfolding run
run_inv authority P keep [] s valid indexed h = (indexed, h)
run_inv authority P keep ((now, message) ∷ messages) s (valid, more) indexed h =
    elim (Option-cases (handle authority now message s)) [
      | inl refused ↦ rw refused (run_inv authority P keep messages s more indexed h)
      | inr (t, accepted) ↦
          let (i, same, change) =
            handle_accepted authority now s indexed message t valid accepted in
          rw accepted (
            run_inv authority P keep messages t more
              (subst IsIndexed (sym same) (Change-IsIndexed authority now s indexed i change))
              (keep now message s t indexed valid accepted h))
    ]
