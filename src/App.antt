-- ===== src/App.antt =====
-- internal/app: the panel's stores, engine and log, and the operations that keep them in step. `now` and
-- `later` are readings of the clock.
pub mod Instances
pub mod Upgrade
pub mod Settings
pub mod Watch
use ycfrp.Base.{
  ℕ, zero, suc, String, Bool, Option, none, some, List, [], ◌∷◌, ◌≡◌, refl, if◌then◌else◌, ◌==◌,
  ◌/◌, ◌%◌, itoa, pos,
}
use Prim.Native.String.{◌++◌, char_at}
use ycfrp.Store.Collection.{Entity, Collection, Outcome, Error}
use ycfrp.Frp.Instance.{Instance}
use ycfrp.Frp.Instance
use ycfrp.Frp.Tunnel.{Tunnel}
use ycfrp.Frp.Tunnel
use ycfrp.Frp.Engine.{Engine}
use ycfrp.Log.{Logger}

pub instance_id-stamp :
    (i : Instance) (created updated : ℕ)
    → (Instance.set_entity_meta i.id created updated i).id ≡ i.id
unfolding Instance.set_entity_meta
instance_id-stamp i zero updated = refl
instance_id-stamp i (suc created) updated = refl

-- `EntityID`, `CreatedAt` and `SetEntityMeta` of an instance
abbrev pub instance_entity : Entity Instance
instance_entity = record {
  entity_id = λ i. i.id;
  created_at = λ i. i.created_at;
  stamp = Instance.set_entity_meta;
  id-stamp = instance_id-stamp;
}

pub tunnel_id-stamp :
    (t : Tunnel) (created updated : ℕ) → (Tunnel.set_entity_meta t.id created updated t).id ≡ t.id
unfolding Tunnel.set_entity_meta
tunnel_id-stamp t zero updated = refl
tunnel_id-stamp t (suc created) updated = refl

-- `EntityID`, `CreatedAt` and `SetEntityMeta` of a tunnel
abbrev pub tunnel_entity : Entity Tunnel
tunnel_entity = record {
  entity_id = λ t. t.id;
  created_at = λ t. t.created_at;
  stamp = Tunnel.set_entity_meta;
  id-stamp = tunnel_id-stamp;
}

-- `App`, the parts that the operations on instances and tunnels touch
pub record App : Type 0 where
  pub instances : Collection Instance
  pub tunnels : Collection Tunnel
  pub engine : Engine
  pub log : Logger

-- What the clock and the file system answer in one operation: for the record that is stored, and for the
-- line that is logged.
pub record Reading : Type 0 where
  pub now : ℕ
  pub later : ℕ
  pub outcome : Outcome
  pub opens : Bool
  pub logged : ℕ

-- the errors of the operations
pub data Fault : Type 0 where
  missing : Fault
  refused : String → Fault
  unsaved : Error → Fault
  tunnel_unsaved : String → Error → Fault

pub data Answer (A : Type 0) : Type 0 where
  done : A → Answer A
  failed : Fault → Answer A

abbrev hex_digit : ℕ → String
hex_digit n = String.◌∷◌ (char_at "0123456789abcdef" n) String.[]

-- `hex.EncodeToString`
unfoldable pub hex_encode : List ℕ → String
hex_encode [] = ""
hex_encode (b ∷ l) = hex_digit (b / 16) ++ (hex_digit (b % 16) ++ hex_encode l)

-- `NewID`, given what `rand.Read` answers and the clock's nanoseconds
unfoldable pub new_id : Option (List ℕ) → ℕ → String → String
unfolding hex_encode itoa
new_id none nano prefix = prefix ++ itoa (pos nano)
new_id (some bytes) nano prefix = prefix ++ hex_encode bytes
