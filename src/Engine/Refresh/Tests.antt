-- ===== src/Engine/Refresh/Tests.antt =====
-- The scoring passes at a local proxy, a public list of one row, and a cache file.
use proxchunk.Prelude.{
  ℕ, ◌+◌, ◌≤◌, min, ◌≡◌, refl, sym, subst, true, false, Option, none, some, List, [], ◌∷◌, arith,
  if◌then◌else◌, length, pos, Bytes, codes, bytes_eq, bytes_eq_iff, contains_byte, contains,
  decimal,
}
use proxchunk.ProxyList.{is_blank, parse_proxy_body}
use proxchunk.Engine.Rows.{count, has_address}
use proxchunk.Engine.Sample.{hundredths, url_a, url_b, pool_ab, sample, pool_ab-HasDistinctRows}
use proxchunk.Engine.Target.{alive_addresses}
use proxchunk.Engine.Candidates.{ProxyEngineConfig, local_proxy_urls, fetch_all_lists}
use proxchunk.Engine.Cache.{is_no_row, load_cache, save_cache}
use proxchunk.Engine.Cache.Saved.{IsAddress, IsNumeral, load_cache-save_cache}
use proxchunk.Engine.Scoring.{
  Start, Rounds, Message, done, round, still_zero, Scoring, new_scoring, fill_slots, on_message,
  test_all, test_proxies_multi,
}
use proxchunk.Engine.Scoring.Counts.{times}
use proxchunk.Engine.Scoring.Fits.{Fits, on_message-Fits, fill_slots-Fits}
use proxchunk.Engine.Scoring.Sound.{Ends, new_scoring-Fits, test_all-Ends}
use proxchunk.Engine.Refresh.{Trial, Pass, Pool, Work, work, cached_candidates, try_reuse_cache}
use proxchunk.Engine.Refresh.Keeps.{IsDistinct, KeepsLeases}
use proxchunk.Engine.Refresh.Reuse.{Reuses, try_reuse_cache-Reuses}
use proxchunk.Engine.Refresh.Thread.{work-KeepsLeases}

abbrev go : Start
go = record { stop = false; easy_ok = true }

-- A transfer of 2 MiB in half a second.
abbrev good : Message ℕ
good = done 0 true 2097152 206 50 go

abbrev two_rounds : Rounds ℕ
two_rounds = round (good ∷ good ∷ []) false (round (good ∷ good ∷ []) false still_zero)

abbrev trial : Trial ℕ
trial = record { multi_ok = true; starts = λ n. go; rounds = two_rounds; stopped = false }

abbrev cfg : ProxyEngineConfig
cfg = record {
  max_inflight = pos 2;
  cache_path = codes "c";
  use_cache = true;
  use_tor = false;
  fetch_public = true;
  extra_proxies = url_a ∷ [];
}

abbrev cands : List Bytes
cands = url_a ∷ url_b ∷ codes "http://c:1" ∷ []

test_all-Ends_example : Ends cands (test_all {D = ℕ} (pos 2) 8 cands 1 true (λ n. go) two_rounds)
test_all-Ends_example = test_all-Ends (pos 2) 8 cands 1 true (λ n. go) two_rounds

ran : length (test_proxies_multi (pos 2) 8 cands 1 true (λ n. go) two_rounds) ≡ 3
unfolding test_proxies_multi
ran = refl

-- With two handles in flight that end in one call of curl_multi_perform, `still` is 0 and the loop
-- is left, although `add_one` has started the next candidate: it is never tested.
abbrev left_early : Scoring ℕ
left_early = test_all (pos 2) 8 cands 1 true (λ n. go) (round (good ∷ good ∷ []) false still_zero)

left_early_running : left_early.running ≡ codes "http://c:1" ∷ []
unfolding test_all
left_early_running = refl

abbrev filled : Scoring ℕ
filled = fill_slots 3 2 (λ n. go) (new_scoring cands)

on_message-Fits_example : Fits cands 2 8 1 (on_message 2 8 1 good filled)
on_message-Fits_example =
    on_message-Fits cands 2 8 1 good filled
      (fill_slots-Fits cands 2 8 1 3 (λ n. go) (new_scoring cands) (new_scoring-Fits cands 2 8 1))

-- One of the public lists has a row, twice.
abbrev body : Bytes → Bytes
body url =
    if bytes_eq url (codes "https://raw.githubusercontent.com/TheSpeedX/PROXY-List/master/http.txt")
    then codes "h:80\nh:80\n"
    else []

abbrev url_h : Bytes
url_h = codes "http://h:80"

lists : fetch_all_lists body ≡ url_h ∷ url_h ∷ []
unfolding fetch_all_lists parse_proxy_body contains contains_byte bytes_eq
lists = refl

url_a-IsAddress : IsAddress url_a
url_a-IsAddress =
    unfold contains contains_byte is_no_row is_blank in
    record { has_scheme = refl; head_full = refl; is_row = refl; no_space = refl; one_line = refl }

url_b-IsAddress : IsAddress url_b
url_b-IsAddress =
    unfold contains contains_byte is_no_row is_blank in
    record { has_scheme = refl; head_full = refl; is_row = refl; no_space = refl; one_line = refl }

decimal-IsNumeral : IsNumeral (decimal 900) × IsNumeral (decimal 300)
decimal-IsNumeral =
    unfold decimal contains_byte is_blank in
    (
      record { full = λ e. cc e; last_full = refl; one_line = refl },
      record { full = λ e. cc e; last_full = refl; one_line = refl },
    )

load_cache-save_cache_example :
    load_cache (save_cache cfg decimal pool_ab true none) ≡ alive_addresses pool_ab
load_cache-save_cache_example =
    load_cache-save_cache decimal cfg pool_ab none refl refl refl
      ((url_a-IsAddress, decimal-IsNumeral.0), ((url_b-IsAddress, decimal-IsNumeral.1), tt))

-- The file of the test, and the state in which it is read.
abbrev saved : Option Bytes
saved = some (codes "http://b:1 3\nhttp://c:1 2\n")

abbrev state : Pool ℕ
state = record { engine = sample; file = saved }

try_reuse_cache-Reuses_example :
    Reuses cfg decimal false trial true state (try_reuse_cache cfg decimal false trial true state)
try_reuse_cache-Reuses_example = try_reuse_cache-Reuses cfg decimal false trial true state

cached : cached_candidates cfg saved ≡ cands
unfolding cached_candidates contains contains_byte
cached = refl

cands-IsDistinct : IsDistinct cands
cands-IsDistinct a =
    ground (arith, bytes_eq_iff url_a a, bytes_eq_iff url_b a, bytes_eq_iff (codes "http://c:1") a)

apart : (a : Bytes) → times a (local_proxy_urls cfg) + min 1 (times a (fetch_all_lists body)) ≤ 1
unfolding local_proxy_urls
apart a = rw lists (ground (arith, bytes_eq_iff url_a a, bytes_eq_iff url_h a))

abbrev pass : Pass ℕ
pass = record { body = body; shuffle = λ bs. bs; trial = trial; can_write = true }

abbrev thread : Work ℕ
thread = record {
  stop_first = false;
  stop_cached = false;
  reuse = trial;
  can_write = true;
  stop_second = false;
  first = pass;
  stop_last = false;
  updates = pass ∷ [];
}

work-KeepsLeases_example : KeepsLeases sample (work cfg decimal (pos 180) thread state).engine
work-KeepsLeases_example =
    work-KeepsLeases cfg decimal (pos 180) thread state pool_ab-HasDistinctRows
      (subst IsDistinct (sym cached) cands-IsDistinct)
      ((λ bs c. refl, apart), ((λ bs c. refl, apart), tt))

-- A local proxy that the cache has too is tested twice, and gets two rows of the pool.
abbrev again : Pool ℕ
again = record {
  engine = record sample { max_keep = 3; pool = [] };
  file = some (codes "http://a:1 3\nhttp://b:1 3\nhttp://c:1 2\n");
}

again_twice :
    count (has_address url_a) (try_reuse_cache cfg decimal false trial true again).1.engine.pool ≡ 2
unfolding try_reuse_cache contains contains_byte bytes_eq
again_twice = refl
