-- ===== src/IdGenerator/Service/Interleaving.antt =====
-- Any number of calls of libs/id-generator/src/id-generator.service.ts, of any pods, for one key, in
-- any interleaving of their operations. Locks may expire at any time.
pub mod Ordered
use ocean_chat_private.Prelude.{ℕ, List, [], ◌∷◌, ◌++◌, Option, none, ◌≡◌}
use ocean_chat_private.IdGenerator.Script.{Increment}
use ocean_chat_private.IdGenerator.Service.{World, Pod, fast_path, Delivery, step}

pub record System : Type 0 where
  pub world : World
  pub calls : List Pod

-- `act`: a call makes its next operation. `arrive`: a new call for the valid key. `expire`: Redis
-- drops the lock, whoever holds it. `crash`: a pod stops in the middle of a call.
pub data Step (incr : Increment) (s : System) : System → Type 0 where
  act :
      (before : List Pod) (p : Pod) (after : List Pod) (uuid : ℕ) (d : Delivery)
      → s.calls ≡ before ++ p ∷ after
      → Step incr s (record {
        world = (step incr uuid d s.world p).0;
        calls = before ++ (step incr uuid d s.world p).1 ∷ after;
      })
  arrive : Step incr s (record s { calls = fast_path ∷ s.calls })
  expire : Step incr s (record { world = record s.world { lock = none }; calls = s.calls })
  crash :
      (before : List Pod) (p : Pod) (after : List Pod)
      → s.calls ≡ before ++ p ∷ after
      → Step incr s (record s { calls = before ++ after })

pub data Reach (incr : Increment) (s : System) : System → Type 0 where
  here : Reach incr s s
  next : {t u : System} → Reach incr s t → Step incr t u → Reach incr s u
