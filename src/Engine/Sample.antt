-- ===== src/Engine/Sample.antt =====
-- A small pool for the tests, with speeds in hundredths.
use proxchunk.Prelude.{
  ℕ, ◌+◌, ◌*◌, ◌/◌, refl, true, false, List, [], ◌∷◌, arith, ltb, ◌==◌, if◌then◌else◌, Bytes, codes,
  bytes_eq_iff,
}
use proxchunk.Engine.Rows.{Floats, IsOrdered, Proxy, HasDistinctRows, IsSorted}
use proxchunk.Engine.{Engine}

instance abbrev pub hundredths : Floats ℕ
hundredths = record {
  gtb = λ a b. ltb b a;
  add = λ a b. a + b;
  mul = λ a b. a * b / 100;
  div = λ a b. a * 100 / (b + 1);
  lit = λ m k. if k == 0 then m * 100 else if k == 1 then m * 10 else m;
  of_nat = λ n. n * 100;
  to_nat = λ a. a / 100;
}

pub hundredths-IsOrdered : IsOrdered hundredths
hundredths-IsOrdered = record { asym = λ a b h. ground arith; trans = λ a b c h k. ground arith }

abbrev pub url_a : Bytes
url_a = codes "http://a:1"

abbrev pub url_b : Bytes
url_b = codes "http://b:1"

abbrev pub row_a : Proxy ℕ
row_a = record {
  address = url_a;
  speed_mbps = 900;
  latency_ms = 12;
  fails = 0;
  alive = true;
  busy = false;
  target_ok = true;
}

abbrev pub row_b : Proxy ℕ
row_b = record row_a { address = url_b; speed_mbps = 300; fails = 3; busy = true }

abbrev pub pool_ab : List (Proxy ℕ)
pool_ab = row_a ∷ row_b ∷ []

abbrev pub sample : Engine ℕ
sample = record { max_keep = 2; pool = pool_ab; target_url = []; target_filter = false }

pub pool_ab-HasDistinctRows : HasDistinctRows pool_ab
pool_ab-HasDistinctRows a = ground (arith, bytes_eq_iff url_a a, bytes_eq_iff url_b a)

pub pool_ab-IsSorted : IsSorted pool_ab
pool_ab-IsSorted = ((refl, tt), (tt, tt))

-- What a refresh found.
abbrev pub tested_rows : List (Proxy ℕ)
tested_rows = record row_a { address = codes "http://c:1"; speed_mbps = 500 } ∷ []
