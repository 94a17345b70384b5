-- ===== src/Engine/Scoring/Fits.antt =====
-- The variables of test_proxies_multi while transfers run.
use proxchunk.Prelude.{
  ℕ, zero, suc, ◌+◌, ◌≤◌, ◌<◌, ◌≡◌, refl, ap, inl, inr, Bool, true, false, not, ◌&&◌, ◌||◌, List,
  [], ◌∷◌, arith, ltb, leb, if◌then◌else◌, Bool-cases, length, length-append, All, All-append,
  Bytes, bytes_eq,
}
use proxchunk.Engine.Rows.{Floats, Proxy, count, count-append, has_address}
use proxchunk.Engine.Scoring.{
  Start, Message, other, done, Report, Scoring, launch, launch_first, add_one, fill_slots, emit,
  is_good, floor_secs, scored, is_fast_enough, score, finish_job, check_enough, on_message,
  on_messages,
}
use proxchunk.Engine.Scoring.Counts.{times, take_at_lem}

-- What a call of `progress` may say.
pub record IsReport (candidates : ℕ) (r : Report) : Type 0 where
  pub live_le : r.live_so_far ≤ r.ok_so_far
  pub ok_le : r.ok_so_far ≤ r.completed_so_far
  pub completed_le : r.completed_so_far ≤ candidates
  pub of_total : r.total ≡ candidates

module _ {D : Type 0} ⦃F : Floats D⦄ where
  -- A row that a transfer has just measured.
  pub record IsFresh (p : Proxy D) : Type 0 where
    pub is_alive : p.alive ≡ true
    pub not_leased : p.busy ≡ false
    pub no_fails : p.fails ≡ 0
    pub fast_enough : is_fast_enough p ≡ true

  -- The variables at every moment before a cancel.
  pub record Fits (candidates : List Bytes) (cap want must : ℕ) (s : Scoring D) : Type 0 where
    pub placed :
        (a : Bytes)
        → count (has_address a) s.tested + times a s.running + times a s.waiting
          ≤ times a candidates
    pub fresh : All IsFresh s.tested
    pub live_le : length s.tested ≤ s.curl_ok
    pub ok_le : s.curl_ok ≤ s.completed
    pub begun_le : s.completed + s.inflight ≤ s.next
    pub all_there : s.next + length s.waiting ≡ length candidates
    pub in_flight : s.inflight ≡ length s.running
    pub in_cap : s.inflight ≤ cap
    pub enough : s.stop_adding ≡ true → (must ≤ s.next) × (want ≤ length s.tested)
    pub reported : All (IsReport (length candidates)) s.reports

  module _ (candidates : List Bytes) (cap want must : ℕ) where
    launch-Fits :
        (now : Start) (a : Bytes) (later : List Bytes) (s : Scoring D)
        → s.waiting ≡ a ∷ later
        → s.stop_adding ≡ false
        → s.inflight < cap
        → Fits candidates cap want must s
        → Fits candidates cap want must (launch now a later s)
    launch-Fits now a later s w go room h = elim (Bool-cases now.easy_ok) [
      | inl good ↦ rw good (record {
        placed = λ b.
            let old = ap (times b) w in
            omega (arith, h.placed b, old, count-append (λ c. bytes_eq c b) s.running (a ∷ []));
        fresh = h.fresh;
        live_le = h.live_le;
        ok_le = h.ok_le;
        begun_le = omega (arith, h.begun_le);
        all_there = omega (arith, h.all_there, ap length w);
        in_flight = omega (arith, h.in_flight, length-append s.running (a ∷ []));
        in_cap = omega (arith, room);
        enough = λ stopped. cc (go, stopped);
        reported = h.reported;
      })
      | inr bad ↦ rw bad (record {
        placed = λ b. omega (arith, h.placed b, ap (times b) w);
        fresh = h.fresh;
        live_le = h.live_le;
        ok_le = h.ok_le;
        begun_le = omega (arith, h.begun_le);
        all_there = omega (arith, h.all_there, ap length w);
        in_flight = h.in_flight;
        in_cap = h.in_cap;
        enough = λ stopped. cc (go, stopped);
        reported = h.reported;
      })
    ]

    launch_first-Fits :
        (now : Start) (w : List Bytes) (s : Scoring D)
        → s.waiting ≡ w
        → s.stop_adding ≡ false
        → s.inflight < cap
        → Fits candidates cap want must s
        → Fits candidates cap want must (launch_first now w s).1
    launch_first-Fits now [] s w go room h = h
    launch_first-Fits now (a ∷ later) s w go room h = launch-Fits now a later s w go room h

    add_one-Fits :
        (now : Start) (s : Scoring D)
        → Fits candidates cap want must s
        → Fits candidates cap want must (add_one cap now s).1
    unfolding add_one
    add_one-Fits now s h = elim (Bool-cases (s.stop_adding || leb cap s.inflight || now.stop)) [
      | inl refused ↦ rw refused h
      | inr wanted ↦ rw wanted (
          launch_first-Fits now s.waiting s refl (ground (arith, wanted)) (ground (arith, wanted))
            h)
    ]

    pub fill_slots-Fits :
        (fuel : ℕ) (starts : ℕ → Start) (s : Scoring D)
        → Fits candidates cap want must s
        → Fits candidates cap want must (fill_slots fuel cap starts s)
    unfolding fill_slots
    fill_slots-Fits zero starts s h = h
    fill_slots-Fits (suc fuel) starts s h =
        let added = add_one-Fits (starts s.next) s h in
        elim (Bool-cases (ltb s.inflight cap && (add_one cap (starts s.next) s).0)) [
          | inl more ↦ rw more (fill_slots-Fits fuel starts _ added)
          | inr over ↦ rw over added
        ]

    score-IsFresh :
        (curle_ok : Bool) (nbytes http_code : ℕ) (secs : D) (a : Bytes)
        → All IsFresh (score curle_ok nbytes http_code secs a)
    unfolding score
    score-IsFresh curle_ok nbytes http_code secs a =
        let p = scored a nbytes (floor_secs secs) in
        elim (Bool-cases (is_good curle_ok nbytes http_code)) [
          | inl good ↦ elim (Bool-cases (is_fast_enough p)) [
            | inl fast ↦
                rw (good, fast)
                  (
                    record {
                      is_alive = refl;
                      not_leased = refl;
                      no_fails = refl;
                      fast_enough = fast;
                    },
                    tt,
                  )
            | inr slow ↦ rw (good, slow) tt
          ]
          | inr bad ↦ rw bad tt
        ]

    score_one :
        (curle_ok : Bool) (nbytes http_code : ℕ) (secs : D) (a b : Bytes)
        → let rows = score curle_ok nbytes http_code secs a in
          (length rows ≤ (if curle_ok then 1 else 0))
          × (count (has_address b) rows ≤ (if bytes_eq a b then 1 else 0))
    unfolding score
    score_one curle_ok nbytes http_code secs a b = (ground arith, ground arith)

    finish_job-Fits :
        (curle_ok : Bool) (nbytes http_code : ℕ) (secs : D) (at : ℕ) (b : Bytes) (bs : List Bytes)
        (s : Scoring D)
        → length s.running ≡ suc (length bs)
        → ((a : Bytes) → times a s.running ≡ (if bytes_eq b a then 1 else 0) + times a bs)
        → Fits candidates cap want must s
        → Fits candidates cap want must
            (finish_job curle_ok (score curle_ok nbytes http_code secs b) bs s)
    finish_job-Fits curle_ok nbytes http_code secs at b bs s fewer counts h =
        let rows = score curle_ok nbytes http_code secs b in
        let one = score_one curle_ok nbytes http_code secs b in
        let more = length-append s.tested rows in
        record {
          placed = λ a.
              omega (
                arith,
                h.placed a,
                counts a,
                (one a).1,
                count-append (has_address a) s.tested rows,
              );
          fresh =
              All-append IsFresh s.tested rows h.fresh
                (score-IsFresh curle_ok nbytes http_code secs b);
          live_le = ground (arith, h.live_le, more, (one b).0);
          ok_le = ground (arith, h.ok_le);
          begun_le = omega (arith, h.begun_le, h.in_flight, fewer);
          all_there = h.all_there;
          in_flight = omega (arith, h.in_flight, fewer);
          in_cap = omega (arith, h.in_cap);
          enough = λ stopped. let (l, r) = h.enough stopped in (l, omega (arith, r, more));
          reported = h.reported;
        }

    check_enough-Fits :
        (s : Scoring D)
        → Fits candidates cap want must s
        → Fits candidates cap want must (check_enough want must s)
    check_enough-Fits s h = elim (Bool-cases (leb want (length s.tested) && leb must s.next)) [
      | inr less ↦ rw less h
      | inl enough ↦ rw enough (record {
        placed = h.placed;
        fresh = h.fresh;
        live_le = h.live_le;
        ok_le = h.ok_le;
        begun_le = h.begun_le;
        all_there = h.all_there;
        in_flight = h.in_flight;
        in_cap = h.in_cap;
        enough = λ stopped. (ground (arith, enough), ground (arith, enough));
        reported = h.reported;
      })
    ]

    -- Every message keeps this: no more transfers than the cap are in flight, each candidate is
    -- waiting, running, or tested at most once, the counters agree with the lists, and the loop stops
    -- adding candidates only where enough rows are live and the first ones have all had their turn.
    pub on_message-Fits :
        (m : Message D) (s : Scoring D)
        → Fits candidates cap want must s
        → Fits candidates cap want must (on_message cap want must m s)
    unfolding on_message
    on_message-Fits other s h = h
    on_message-Fits (done at curle_ok nbytes http_code secs now) s h =
        elim (take_at_lem at s.running) [
          | inl no_such ↦ rw (no_such, on_message) h
          | inr (b, bs, got, fewer, counts) ↦
              let finished =
                finish_job-Fits curle_ok nbytes http_code secs at b bs s fewer counts h in
              let checked = check_enough-Fits _ finished in
              rw (got, on_message) (choose _ _ _ (add_one-Fits now _ checked) checked)
        ]
      where
        choose :
            (stopped : Bool) (x y : Scoring D)
            → Fits candidates cap want must x
            → Fits candidates cap want must y
            → Fits candidates cap want must (if not stopped then x else y)
        choose true x y h k = k
        choose false x y h k = h

    pub on_messages-Fits :
        (ms : List (Message D)) (s : Scoring D)
        → Fits candidates cap want must s
        → Fits candidates cap want must (on_messages cap want must ms s)
    unfolding on_messages
    on_messages-Fits [] s h = h
    on_messages-Fits (m ∷ ms) s h =
        on_messages-Fits ms (on_message cap want must m s) (on_message-Fits m s h)

    pub emit-Fits :
        (is_last : Bool) (s : Scoring D)
        → Fits candidates cap want must s
        → Fits candidates cap want must (emit is_last (length candidates) s)
    emit-Fits is_last s h = record {
      placed = h.placed;
      fresh = h.fresh;
      live_le = h.live_le;
      ok_le = h.ok_le;
      begun_le = h.begun_le;
      all_there = h.all_there;
      in_flight = h.in_flight;
      in_cap = h.in_cap;
      enough = h.enough;
      reported = All-append (IsReport (length candidates)) s.reports _ h.reported (
        record {
          live_le = h.live_le;
          ok_le = h.ok_le;
          completed_le = omega (arith, h.begun_le, h.all_there);
          of_total = refl;
        },
        tt,
      );
    }
