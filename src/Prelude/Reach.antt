-- ===== src/Prelude/Reach.antt =====
-- Reachability along a Boolean table of transitions.
use mathlib.Core.Path.{◌≡◌}
use mathlib.Core.Bool.{Bool, true}

-- The states that a chain of permitted transitions leads to.
pub data Reaches {ℓ} {S : Type ℓ} (allowed : S → S → Bool) (s : S) : S → Type ℓ where
  here : Reaches allowed s s
  next : {t u : S} → Reaches allowed s t → allowed t u ≡ true → Reaches allowed s u

module _ {ℓ κ} {S : Type ℓ} (allowed : S → S → Bool) (P : S → Type κ) where
  -- What every permitted transition keeps holds wherever they lead.
  pub Reaches-keeps :
      ((t u : S) → allowed t u ≡ true → P t → P u) → {s t : S} → Reaches allowed s t → P s → P t
  Reaches-keeps keep here h = h
  Reaches-keeps keep (next {t} {u} r e) h = keep t u e (Reaches-keeps keep r h)
