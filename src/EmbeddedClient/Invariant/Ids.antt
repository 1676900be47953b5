-- ===== src/EmbeddedClient/Invariant/Ids.antt =====
-- The sequence of the packet ids.
use mqtt_async_embedded.Prelude.{ℕ, zero, suc, ◌+◌, ◌-◌, ◌%◌, ◌≤◌, ◌<◌, ◌≡◌, ◌≢◌, arith}
use mqtt_async_embedded.EmbeddedClient.{id_after}

-- The id after `k` more of them were handed out.
unfoldable pub id_after_all : ℕ → ℕ → ℕ
id_after_all zero id = id
id_after_all (suc k) id = id_after_all k (id_after id)

id_after-step : (id : ℕ) → 1 ≤ id → id < 65536 → id_after id ≡ id % 65535 + 1
unfolding id_after
id_after-step id low high = ground arith

-- The ids run from 1 to 65535 in a circle.
pub id_after_all-circle :
    (k id : ℕ) → 1 ≤ id → id < 65536 → id_after_all k id ≡ (id - 1 + k) % 65535 + 1
unfolding id_after_all
id_after_all-circle zero id low high = omega arith
id_after_all-circle (suc k) id low high =
    let next = id_after-step id low high in
    omega
      (arith, next, id_after_all-circle k (id_after id) (omega (arith, next)) (omega (arith, next)))

-- An id that was handed out does not come again among the next 65534, none of which is 0, and comes
-- again behind them.
pub id_after_all-distinct :
    (k id : ℕ)
    → 1 ≤ id
    → id < 65536
    → 1 ≤ k
    → k < 65535
    → (id_after_all k id ≢ id)
      × (1 ≤ id_after_all k id)
      × (id_after_all k id < 65536)
      × (id_after_all 65535 id ≡ id)
id_after_all-distinct k id low high some_more few =
    let e = id_after_all-circle k id low high in
    let round = id_after_all-circle 65535 id low high in
    (λ same. omega (arith, e, same), omega (arith, e), omega (arith, e), omega (arith, round))
