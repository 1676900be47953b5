-- ===== src/Maps.antt =====
-- A `HashMap` as the list of its entries: an insertion writes over the entry of its key, or puts a
-- new one at the end. The order in which the code goes over a map is that of the list, one of those
-- that the type allows.
pub mod Laws
use mqtt_async_embedded.Prelude.{
  ℕ, Bool, true, false, Option, none, some, List, [], ◌∷◌, if◌then◌else◌,
}

module _ {K V : Type 0} (same : K → K → Bool) where
  unfoldable pub insert : K → V → List (K × V) → List (K × V)
  insert k v [] = (k, v) ∷ []
  insert k v (e ∷ m) = if same k e.0 then (k, v) ∷ m else e ∷ insert k v m

  unfoldable pub remove : K → List (K × V) → List (K × V)
  remove k [] = []
  remove k (e ∷ m) = if same k e.0 then m else e ∷ remove k m

  unfoldable pub find : K → List (K × V) → Option V
  find k [] = none
  find k (e ∷ m) = if same k e.0 then some e.1 else find k m
