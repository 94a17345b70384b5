-- ===== src/Engine/Scoring.antt =====
-- test_proxies_multi of src/proxy_engine.cpp: the scoring of candidates by parallel transfers.
-- What curl and the clock report is given: for each candidate whether a transfer can be made, and
-- for each round of the loop the messages that curl_multi_info_read returns.
pub mod Counts
pub mod Fits
pub mod Sound
use proxchunk.Prelude.{
  ℕ, zero, suc, ◌+◌, ◌-◌, Bool, true, false, not, ◌&&◌, ◌||◌, Option, none, some, List, [], ◌∷◌,
  ◌++◌, ltb, leb, ◌==◌, if◌then◌else◌, length, ℤ, pos, negsuc, Bytes,
}
use proxchunk.Engine.Rows.{Floats, Proxy}

-- What `add_one` sees when it is called: the stop flag, and whether make_test_easy gives a handle.
pub record Start : Type 0 where
  pub stop : Bool
  pub easy_ok : Bool

-- A message. `at` is the place of its transfer among the running ones, in the order of `jobs`;
-- curl reports running transfers only. `now` is what the `add_one` behind it sees.
pub data Message (D : Type 0) : Type 0 where
  other : Message D
  done : (at : ℕ) (curle_ok : Bool) (nbytes http_code : ℕ) (secs : D) (now : Start) → Message D

-- The loop's condition and, where it holds, the round: the messages, and the stop flag behind them.
pub data Rounds (D : Type 0) : Type 0 where
  still_zero : Rounds D
  stop_seen : Rounds D
  round : (messages : List (Message D)) (stop_after : Bool) (later : Rounds D) → Rounds D

-- The arguments of one call of `progress`.
pub record Report : Type 0 where
  pub completed_so_far : ℕ
  pub total : ℕ
  pub live_so_far : ℕ
  pub ok_so_far : ℕ
  pub is_last : Bool

-- The variables of the function. `candidates[next++]` is the head of `waiting`, and `running` has
-- the addresses of the jobs whose `easy` is not null.
pub record Scoring (D : Type 0) : Type 0 where
  pub tested : List (Proxy D)
  pub curl_ok : ℕ
  pub next : ℕ
  pub waiting : List Bytes
  pub running : List Bytes
  pub completed : ℕ
  pub inflight : ℕ
  pub stop_adding : Bool
  pub reports : List Report

-- `cfg_.max_inflight > 0 ? cfg_.max_inflight : 96`
pub inflight_cap : ℤ → ℕ
inflight_cap (pos n) = if ltb 0 n then n else 96
inflight_cap (negsuc n) = 96

abbrev with_earlier : Bytes → Option (Bytes × List Bytes) → Option (Bytes × List Bytes)
with_earlier a none = none
with_earlier a (some (b, rest)) = some (b, a ∷ rest)

-- The job of a message, taken out of the running ones.
pub take_at : ℕ → List Bytes → Option (Bytes × List Bytes)
take_at n [] = none
take_at zero (a ∷ rest) = some (a, rest)
take_at (suc n) (a ∷ rest) = with_earlier a (take_at n rest)

abbrev pub is_good : Bool → ℕ → ℕ → Bool
is_good curle_ok nbytes http_code =
    curle_ok && leb 1024 nbytes && (http_code == 0 || http_code == 200 || http_code == 206)

module _ {D : Type 0} where
  -- The call of make_test_easy, and what follows it.
  abbrev pub launch : Start → Bytes → List Bytes → Scoring D → Scoring D
  launch now address later s =
      let begun = record s { next = s.next + 1; waiting = later } in
      if not now.easy_ok
      then begun
      else record begun { running = s.running ++ address ∷ []; inflight = s.inflight + 1 }

  abbrev pub launch_first : Start → List Bytes → Scoring D → Bool × Scoring D
  launch_first now [] s = (false, s)
  launch_first now (address ∷ later) s = (true, launch now address later s)

  pub add_one : ℕ → Start → Scoring D → Bool × Scoring D
  add_one cap now s =
      if s.stop_adding || leb cap s.inflight || now.stop
      then (false, s)
      else launch_first now s.waiting s

  -- `while (inflight < inflight_cap && add_one())`; each call that returns true takes a candidate,
  -- so `fuel` is the number of those that wait.
  pub fill_slots : ℕ → ℕ → (ℕ → Start) → Scoring D → Scoring D
  unfolding add_one
  fill_slots zero cap starts s = s
  fill_slots (suc fuel) cap starts s =
      let added = add_one cap (starts s.next) s in
      let rest = fill_slots fuel cap starts added.1 in
      if ltb s.inflight cap && added.0 then rest else added.1

  abbrev pub emit : Bool → ℕ → Scoring D → Scoring D
  emit is_last total s = record s {
    reports =
        s.reports
        ++ record {
          completed_so_far = s.completed;
          total = total;
          live_so_far = length s.tested;
          ok_so_far = s.curl_ok;
          is_last = is_last;
        }
          ∷ [];
  }

module _ {D : Type 0} ⦃F : Floats D⦄ where
  abbrev pub floor_secs : D → D
  floor_secs secs = if F.gtb (F.lit 1 2) secs then F.lit 1 2 else secs

  -- The row of a transfer that went well.
  abbrev pub scored : Bytes → ℕ → D → Proxy D
  scored address nbytes secs = record {
    address = address;
    speed_mbps = F.div (F.div (F.of_nat nbytes) (F.mul (F.lit 1024 0) (F.lit 1024 0))) secs;
    latency_ms = F.to_nat (F.mul secs (F.lit 1000 0));
    fails = 0;
    alive = true;
    busy = false;
    target_ok = true;
  }

  -- `p.speed_mbps > 0.02`
  abbrev pub is_fast_enough : Proxy D → Bool
  is_fast_enough p = F.gtb p.speed_mbps (F.lit 2 2)

  -- What a finished transfer adds to `tested`.
  pub score : Bool → ℕ → ℕ → D → Bytes → List (Proxy D)
  score curle_ok nbytes http_code secs address =
      let p = scored address nbytes (floor_secs secs) in
      if is_good curle_ok nbytes http_code && is_fast_enough p then p ∷ [] else []

  -- The counters, and the handle that is removed.
  abbrev pub finish_job : Bool → List (Proxy D) → List Bytes → Scoring D → Scoring D
  finish_job curle_ok rows running s = record s {
    tested = s.tested ++ rows;
    curl_ok = if curle_ok then s.curl_ok + 1 else s.curl_ok;
    running = running;
    inflight = s.inflight - 1;
    completed = s.completed + 1;
  }

  abbrev pub check_enough : ℕ → ℕ → Scoring D → Scoring D
  check_enough want_live must_test_first s =
      if leb want_live (length s.tested) && leb must_test_first s.next
      then record s { stop_adding = true }
      else s

  pub on_message : ℕ → ℕ → ℕ → Message D → Scoring D → Scoring D
  unfolding add_one take_at score
  on_message cap want_live must_test_first other s = s
  on_message cap want_live must_test_first (done at curle_ok nbytes http_code secs now) s =
      elim (take_at at s.running) [
        | none ↦ s
        | some (address, running) ↦
            let rows = score curle_ok nbytes http_code secs address in
            let finished = finish_job curle_ok rows running s in
            let checked = check_enough want_live must_test_first finished in
            if not checked.stop_adding then (add_one cap now checked).1 else checked
      ]

  pub on_messages : ℕ → ℕ → ℕ → List (Message D) → Scoring D → Scoring D
  unfolding on_message
  on_messages cap want_live must_test_first [] s = s
  on_messages cap want_live must_test_first (m ∷ ms) s =
      on_messages cap want_live must_test_first ms (on_message cap want_live must_test_first m s)

  abbrev pub cancel : ℕ → Scoring D → Scoring D
  cancel total s = record s { running = []; inflight = 0; completed = total }

  pub test_rounds : ℕ → ℕ → ℕ → ℕ → Rounds D → Scoring D → Scoring D
  unfolding on_messages
  test_rounds cap want_live must_test_first total still_zero s = s
  test_rounds cap want_live must_test_first total stop_seen s = s
  test_rounds cap want_live must_test_first total (round messages stop_after later) s =
      let s' = on_messages cap want_live must_test_first messages s in
      let rest = test_rounds cap want_live must_test_first total later (emit false total s') in
      if (s'.stop_adding && ltb 0 s'.inflight) || stop_after then cancel total s' else rest

  abbrev pub new_scoring : List Bytes → Scoring D
  new_scoring candidates = record {
    tested = [];
    curl_ok = 0;
    next = 0;
    waiting = candidates;
    running = [];
    completed = 0;
    inflight = 0;
    stop_adding = false;
    reports = [];
  }

  -- The variables at the end, for `max_inflight` and `max_keep` of the configuration; with no
  -- multi handle nothing is tested and nothing reported.
  unfoldable pub test_all : ℤ → ℕ → List Bytes → ℕ → Bool → (ℕ → Start) → Rounds D → Scoring D
  unfolding inflight_cap fill_slots test_rounds
  test_all max_inflight max_keep candidates must_test_first multi_ok starts rounds =
      let total = length candidates in
      let cap = inflight_cap max_inflight in
      let filled = fill_slots total cap starts (new_scoring candidates) in
      let looped =
        test_rounds cap max_keep must_test_first total rounds (emit false total filled) in
      if not multi_ok then new_scoring candidates else emit true total looped

  unfoldable pub test_proxies_multi :
      ℤ → ℕ → List Bytes → ℕ → Bool → (ℕ → Start) → Rounds D → List (Proxy D)
  unfolding test_all
  test_proxies_multi max_inflight max_keep candidates must_test_first multi_ok starts rounds =
      (test_all max_inflight max_keep candidates must_test_first multi_ok starts rounds).tested
