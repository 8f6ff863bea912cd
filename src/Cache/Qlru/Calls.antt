-- ===== src/Cache/Qlru/Calls.antt =====
-- modules/cache/providers/qlru/connector.ts: sequences of calls of `ZanixQLRUConnector`.
use datamaster.Prelude.{ℕ, Option, List, [], ◌∷◌}
use datamaster.Cache.Qlru
use datamaster.Cache.Qlru.{Qlru, SetOptions}

-- A call of a method, or a timer that fires.
pub data Call (K V : Type 0) : Type 0 where
  get : K → Call K V
  has : K → Call K V
  delete : K → Call K V
  clear : Call K V
  list : Call K V
  set : K → V → SetOptions → Call K V
  timer : Call K V

module _ {K V : Type 0} (dec : Discrete K) (ttl_with_offset : ℕ → Option ℕ → Option ℕ → ℕ) where
  -- `list` stands for `size`, `keys` and `values`, whose only effect is `evict`.
  unfoldable pub step : ℕ → Call K V → Qlru K V → Qlru K V
  step now (Call.get k) c = (Qlru.get dec now k c).0
  step now (Call.has k) c = (Qlru.has dec now k c).0
  step now (Call.delete k) c = (Qlru.delete dec k c).0
  step now Call.clear c = Qlru.clear c
  step now Call.list c = Qlru.evict dec now c
  step now (Call.set k v options) c = Qlru.set dec ttl_with_offset now k v options c
  step now Call.timer c = Qlru.fire_timer dec ttl_with_offset now c

  unfoldable pub run : List (ℕ × Call K V) → Qlru K V → Qlru K V
  run [] c = c
  run ((now, call) ∷ calls) c = run calls (step now call c)
