-- ===== src/Engine/Tests.antt =====
-- The theorems on the pool, at two rows of which one is leased.
use proxchunk.Prelude.{ℕ, ◌≡◌, refl, true, false, Option, some, List, [], ◌∷◌, All, Bytes, codes}
use proxchunk.Engine.Rows.{is_faster, count, busy_at}
use proxchunk.Engine.{is_free, acquire, pick}
use proxchunk.Engine.Acquire.{AcquireSpec, is_available, acquire-AcquireSpec}
use proxchunk.Engine.Order.{acquire_fastest}
use proxchunk.Engine.Install.{install_tested}
use proxchunk.Engine.Install.Leases.{install_tested-leases}
use proxchunk.Engine.Target.{verify_target, Answered, alive_addresses, verify_target-Answered}
use proxchunk.Engine.Sample.{
  hundredths, hundredths-IsOrdered, url_a, url_b, row_a, row_b, pool_ab, sample,
  pool_ab-HasDistinctRows, pool_ab-IsSorted, tested_rows,
}

acquire-AcquireSpec_example : AcquireSpec sample (url_a ∷ []) (acquire sample (url_a ∷ []))
acquire-AcquireSpec_example = acquire-AcquireSpec sample (url_a ∷ [])

acquire_fastest_example :
    All
      (λ r.
        is_available false true [] r ≡ true → is_faster r (record row_a { busy = true }) ≡ false)
      pool_ab
    × (All (λ r. is_available false true [] r ≡ false) pool_ab
        → All
            (λ r. is_free false r ≡ true → is_faster r (record row_a { busy = true }) ≡ false)
            pool_ab)
unfolding pick acquire
acquire_fastest_example =
    acquire_fastest hundredths-IsOrdered sample
      (record sample { pool = record row_a { busy = true } ∷ row_b ∷ [] }) []
      (record row_a { busy = true }) pool_ab-IsSorted refl

install_tested-leases_example :
    count (busy_at url_b) (install_tested sample tested_rows).pool ≡ count (busy_at url_b) pool_ab
install_tested-leases_example =
    install_tested-leases sample tested_rows pool_ab-HasDistinctRows (refl, tt) url_b

abbrev answers : List Bytes → Option (List (Bytes × ℕ))
answers asked = some ((url_b, 700) ∷ [])

verify_target-Answered_example :
    let e' = (verify_target sample (codes "http://t/f") answers).0 in
    (e'.target_filter ≡ true)
    × All
        (λ p. is_free true p ≡ true → Answered p.address (answers (alive_addresses pool_ab)))
        e'.pool
verify_target-Answered_example = verify_target-Answered sample (codes "http://t/f") answers refl
