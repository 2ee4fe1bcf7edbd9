-- ===== src/Controller/Settled.antt =====
-- Resources that are in sync, and what a run on one changes. The children follow this through three
-- reconcilers.
pub mod User
pub mod UserGroup
pub mod OidcClient
use pocketid_operator.Base.{◌≡◌, refl, ap, ◌∷◌}
use pocketid_operator.World.{History, Kind, Carrier, wrote, update_status}
use pocketid_operator.World.Effects.{changes}
use pocketid_operator.Controller.Outcome.{Outcome, again_after}

-- The run asks for another one in five minutes, and the one thing that it changes is a status of
-- the kind.
pub record StatusOnly (k : Kind) (h : History) (r : Outcome × History) : Type 0 where
  pub repeats : r.0 ≡ again_after 300
  pub resource : Carrier k
  pub one_change : changes r.1 ≡ wrote update_status k resource ∷ changes h

pub StatusOnly-wrote :
    (k : Kind) (x : Carrier k) (h before : History)
    → changes h ≡ changes before
    → StatusOnly k before (again_after 300, wrote update_status k x ∷ h)
StatusOnly-wrote k x h before same = record {
  repeats = refl;
  resource = x;
  one_change = ap (λ es. wrote update_status k x ∷ es) same;
}
