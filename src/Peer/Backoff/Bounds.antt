-- ===== src/Peer/Backoff/Bounds.antt =====
-- The bounds of the delays.
use ninja_vst3_plugin.Prelude.{
  ℕ, zero, suc, ◌+◌, ◌-◌, ◌^◌, ◌≤◌, ◌≡◌, min, arith, refl, ◌⊎◌, inl, inr,
}
use ninja_vst3_plugin.Peer.Backoff.{retry_delay}

-- Powers of two up to the fifth.
power_cases :
    (e : ℕ)
    → e ≤ 5
    → ((e ≡ 0) × (2 ^ e ≡ 1))
      ⊎ ((e ≡ 1) × (2 ^ e ≡ 2))
      ⊎ ((e ≡ 2) × (2 ^ e ≡ 4))
      ⊎ ((e ≡ 3) × (2 ^ e ≡ 8))
      ⊎ ((4 ≤ e) × (16 ≤ 2 ^ e))
power_cases zero h = inl (refl, refl)
power_cases (suc zero) h = inr (inl (refl, refl))
power_cases (suc (suc zero)) h = inr (inr (inl (refl, refl)))
power_cases (suc (suc (suc zero))) h = inr (inr (inr (inl (refl, refl))))
power_cases (suc (suc (suc (suc zero)))) h = inr (inr (inr (inr (ground arith, ground arith))))
power_cases (suc (suc (suc (suc (suc zero))))) h =
    inr (inr (inr (inr (ground arith, ground arith))))
power_cases (suc (suc (suc (suc (suc (suc e)))))) h = ground arith

-- A failed view is retried after 2 s at the earliest and 30 s at the latest, no earlier than the
-- attempt before; from the fifth attempt on it is every 30 s.
pub retry_delay_bounds :
    (n : ℕ)
    → (2000 ≤ retry_delay n)
      × (retry_delay n ≤ 30000)
      × (retry_delay n ≤ retry_delay (suc n))
      × (retry_delay (n + 5) ≡ 30000)
unfolding retry_delay
retry_delay_bounds n =
    let now = power_cases (min (n - 1) 5) (ground arith) in
    let next = power_cases (min (suc n - 1) 5) (ground arith) in
    let fifth = power_cases (min (n + 5 - 1) 5) (ground arith) in
    (ground arith, ground arith, ground arith, ground arith)
