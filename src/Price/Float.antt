-- ===== src/Price/Float.antt =====
-- What the price service uses of JavaScript numbers and of ethers: a type of numbers with the
-- operations that it calls, and `parseFloat(ethers.formatEther(s))` as one function of the text. The
-- laws are those of finite numbers.
use energy_chain.Shared.{◌≡◌, Bool, true, false}
use energy_chain.Shared.Text.{Text, codes}

pub record Float : Type 1 where
  pub F : Type 0
  pub zero_f : F
  pub plus : F → F → F
  pub over : F → F → F
  pub max_f : F → F → F
  pub min_f : F → F → F
  pub less : F → F → Bool
  pub ether : Text → F

-- The laws that the proofs name: `Math.max` and `Math.min` are bounds of their arguments in an order,
-- the text "0" is read as zero, and zero stays zero under division by a positive number.
pub record IsFinite (num : Float) : Type 1 where
  pub AtMost : num.F → num.F → Type 0
  pub at_most_refl : (a : num.F) → AtMost a a
  pub at_most_trans : (a b c : num.F) → AtMost a b → AtMost b c → AtMost a c
  pub max_left : (a b : num.F) → AtMost a (num.max_f a b)
  pub max_right : (a b : num.F) → AtMost b (num.max_f a b)
  pub min_left : (a b : num.F) → AtMost (num.min_f a b) a
  pub min_right : (a b : num.F) → AtMost (num.min_f a b) b
  pub ether_zero : num.ether (codes "0") ≡ num.zero_f
  pub zero_not_less : num.less num.zero_f num.zero_f ≡ false
  pub zero_over : (a : num.F) → num.less num.zero_f a ≡ true → num.over num.zero_f a ≡ num.zero_f
