-- ===== src/Knowledge/Laws/Checks.antt =====
-- What an accepted check has passed.
use context_vault.Prelude.{◌≡◌, refl, String, Bool, true, false, Option, none, some}
use context_vault.Knowledge.Records.{Checked, accept, refuse, refuse_if, require, ◌>>=◌, ◌>>◌}

module _ {A B : Type 0} where
  pub accepted :
      (checked : Checked A) (rest : A → Checked B) (b : B)
      → (checked >>= rest) ≡ accept b
      → (a : A) × (checked ≡ accept a) × (rest a ≡ accept b)
  unfolding ◌>>=◌
  accepted (refuse message) rest b h = cc
  accepted (accept a) rest b h = (a, refl, h)

  pub is_accepted :
      (checked : Checked A) (rest : A → Checked B) (a : A) (b : B)
      → checked ≡ accept a
      → rest a ≡ accept b
      → (checked >>= rest) ≡ accept b
  unfolding ◌>>=◌
  is_accepted checked rest a b h k = rw h k

  pub required :
      (value : Option A) (message : String) (rest : A → Checked B) (b : B)
      → (require value message >>= rest) ≡ accept b
      → (a : A) × (value ≡ some a) × (rest a ≡ accept b)
  unfolding ◌>>=◌ require
  required none message rest b h = cc
  required (some a) message rest b h = (a, refl, h)

module _ {B : Type 0} where
  pub passed :
      (test : Bool) (message : String) (rest : Checked B) (b : B)
      → (refuse_if test message >> rest) ≡ accept b
      → (test ≡ false) × (rest ≡ accept b)
  unfolding ◌>>=◌ refuse_if
  passed true message rest b h = cc
  passed false message rest b h = (refl, h)

  pub is_passed :
      (test : Bool) (message : String) (rest : Checked B) (b : B)
      → test ≡ false
      → rest ≡ accept b
      → (refuse_if test message >> rest) ≡ accept b
  unfolding ◌>>=◌ refuse_if
  is_passed true message rest b h k = cc
  is_passed false message rest b h k = k

pub not_refused :
    (test : Bool) (message : String) → test ≡ false → refuse_if test message ≡ accept tt
unfolding refuse_if
not_refused test message h = rw h refl

pub accept-inj : {A : Type 0} (a b : A) → accept a ≡ accept b → a ≡ b
accept-inj a b h = cc
