-- ===== src/Tests/Counters.antt =====
-- A counter without a time of expiry.
use d_ai_api_sec.Prelude.{ℕ, ◌≡◌, refl, true, List, [], ◌∷◌, arith}
use d_ai_api_sec.Errors.{ok}
use d_ai_api_sec.Gateway.Redis.{count_key, increment_window_counter}
use d_ai_api_sec.Gateway.Unexpiring.{unexpiring, IsStuck, count_all, unexpiring_counts}
use d_ai_api_sec.Tests.Redis.{Server, client, laws}

abbrev stuck : Server
stuck = record { up = true; entries = (count_key "10.0.0.1" "/api/orders", unexpiring 1) ∷ [] }

stuck-IsStuck : IsStuck client laws "10.0.0.1" "/api/orders" 10000 1 stuck
stuck-IsStuck = (refl, refl)

-- Two requests, an hour apart, and one more on the next day.
abbrev apart : List ℕ
apart = 1700000000000 ∷ 1700003600000 ∷ []

unexpiring_counts_example :
    (t : Server) × (u : Server) × (count_all client laws "10.0.0.1" "/api/orders" 10000 apart stuck
      ≡ (ok tt, t))
    × (increment_window_counter client 1700086400000 "10.0.0.1" "/api/orders" 10000 t ≡ (ok 4, u))
unexpiring_counts_example =
    unexpiring_counts client laws "10.0.0.1" "/api/orders" 10000 apart 1700086400000 1 stuck
      (omega arith) stuck-IsStuck
