-- ===== src/Engine/Scoring/Sound.antt =====
-- Every row that test_proxies_multi returns is a candidate that was tested, at most once.
use proxchunk.Prelude.{
  ℕ, ◌≤◌, refl, Bool, true, false, List, arith, if◌then◌else◌, length, All, All-append, ℤ, Bytes,
}
use proxchunk.Engine.Rows.{Floats, count, has_address}
use proxchunk.Engine.Scoring.{
  Start, Rounds, still_zero, stop_seen, round, Scoring, inflight_cap, emit, test_rounds, cancel,
  new_scoring, test_all,
}
use proxchunk.Engine.Scoring.Counts.{times}
use proxchunk.Engine.Scoring.Fits.{
  IsReport, IsFresh, Fits, fill_slots-Fits, on_messages-Fits, emit-Fits,
}

module _ {D : Type 0} ⦃F : Floats D⦄ where
  -- What is left of that at the end.
  pub record Ends (candidates : List Bytes) (s : Scoring D) : Type 0 where
    pub once : (a : Bytes) → count (has_address a) s.tested ≤ times a candidates
    pub fresh : All IsFresh s.tested
    pub live_le : length s.tested ≤ s.curl_ok
    pub ok_le : s.curl_ok ≤ s.completed
    pub completed_le : s.completed ≤ length candidates
    pub reported : All (IsReport (length candidates)) s.reports

  module _ (candidates : List Bytes) (cap want must : ℕ) where
    Fits-Ends : (s : Scoring D) → Fits candidates cap want must s → Ends candidates s
    Fits-Ends s h = record {
      once = λ a. omega (arith, h.placed a);
      fresh = h.fresh;
      live_le = h.live_le;
      ok_le = h.ok_le;
      completed_le = omega (arith, h.begun_le, h.all_there);
      reported = h.reported;
    }

    cancel-Ends :
        (s : Scoring D)
        → Fits candidates cap want must s
        → Ends candidates (cancel (length candidates) s)
    cancel-Ends s h = record {
      once = λ a. omega (arith, h.placed a);
      fresh = h.fresh;
      live_le = h.live_le;
      ok_le = omega (arith, h.ok_le, h.begun_le, h.all_there);
      completed_le = omega arith;
      reported = h.reported;
    }

    test_rounds-Ends :
        (rounds : Rounds D) (s : Scoring D)
        → Fits candidates cap want must s
        → Ends candidates (test_rounds cap want must (length candidates) rounds s)
    unfolding test_rounds
    test_rounds-Ends still_zero s h = Fits-Ends s h
    test_rounds-Ends stop_seen s h = Fits-Ends s h
    test_rounds-Ends (round ms stop_after later) s h =
        let read = on_messages-Fits candidates cap want must ms s h in
        let reported = emit-Fits candidates cap want must false _ read in
        choose _ _ _ (cancel-Ends _ read) (test_rounds-Ends later _ reported)
      where
        choose :
            (b : Bool) (x y : Scoring D)
            → Ends candidates x
            → Ends candidates y
            → Ends candidates (if b then x else y)
        choose true x y h k = h
        choose false x y h k = k

  pub new_scoring-Fits :
      (candidates : List Bytes) (cap want must : ℕ)
      → Fits {D = D} candidates cap want must (new_scoring candidates)
  new_scoring-Fits candidates cap want must = record {
    placed = λ a. omega arith;
    fresh = tt;
    live_le = omega arith;
    ok_le = omega arith;
    begun_le = omega arith;
    all_there = omega arith;
    in_flight = omega arith;
    in_cap = omega arith;
    enough = λ stopped. cc;
    reported = tt;
  }

  emit-Ends :
      (candidates : List Bytes) (is_last : Bool) (s : Scoring D)
      → Ends candidates s
      → Ends candidates (emit is_last (length candidates) s)
  emit-Ends candidates is_last s h = record {
    once = h.once;
    fresh = h.fresh;
    live_le = h.live_le;
    ok_le = h.ok_le;
    completed_le = h.completed_le;
    reported = All-append (IsReport (length candidates)) s.reports _ h.reported (
      record {
        live_le = h.live_le;
        ok_le = h.ok_le;
        completed_le = h.completed_le;
        of_total = refl;
      },
      tt,
    );
  }

  -- However the transfers end, in whatever order and wherever the stop flag is set: every row that
  -- test_proxies_multi ends with has a candidate's address, no address more often than among the
  -- candidates, and is alive, free and faster than 0.02 MB/s; and in every progress report
  -- live ≤ curl_ok ≤ completed ≤ total, which is the number of candidates.
  pub test_all-Ends :
      (max_inflight : ℤ) (max_keep : ℕ) (candidates : List Bytes) (must_test_first : ℕ)
      (multi_ok : Bool) (starts : ℕ → Start) (rounds : Rounds D)
      → Ends candidates
          (test_all max_inflight max_keep candidates must_test_first multi_ok starts rounds)
  unfolding test_all
  test_all-Ends max_inflight max_keep candidates must_test_first true starts rounds =
      let cap = inflight_cap max_inflight in
      let start = new_scoring-Fits candidates cap max_keep must_test_first in
      let filled =
        fill_slots-Fits candidates cap max_keep must_test_first (length candidates) starts _
          start in
      emit-Ends candidates true _ (
        test_rounds-Ends candidates cap max_keep must_test_first rounds _
          (emit-Fits candidates cap max_keep must_test_first false _ filled))
  test_all-Ends max_inflight max_keep candidates must_test_first false starts rounds =
      Fits-Ends candidates 0 0 0 _ (new_scoring-Fits candidates 0 0 0)
