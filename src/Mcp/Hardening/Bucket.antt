-- ===== src/Mcp/Hardening/Bucket.antt =====
-- internal/mcp/hardening.go: the rate that the token bucket lets through.
use vision_mcp_manager.Base.{
  ℕ, suc, ◌+◌, ◌-◌, ◌*◌, ◌/◌, ◌≤◌, ◌<◌, ◌≡◌, refl, ap, ◌∙◌, sym, inl, inr, Bool, true, false, arith,
  ltb, leb, if◌then◌else◌, List, [], ◌∷◌, Bool-cases,
}
use vision_mcp_manager.Mcp.Hardening.{TokenBucket, refilled, allow_at, allowed}
use native.Mathlib.Nat.{
  div-mul-le_self, lt-div-mul-add, add-mul, zero-mul, one-mul, le-div_iff_mul-le, suc-mul,
  mul-le-mul_right,
}

-- No more tokens than the burst, a positive interval, and a last time that has been.
pub record Sound (now : ℕ) (tb : TokenBucket) : Type 0 where
  pub positive : 0 < tb.interval
  pub tokens_fit : tb.tokens ≤ tb.burst
  pub past : tb.last_time ≤ now

-- What the tokens and the time since the last one are worth, in time.
abbrev credit : ℕ → TokenBucket → ℕ
credit now tb = tb.tokens * tb.interval + (now - tb.last_time)

-- A bucket that a time has come to.
record Step (now : ℕ) (tb tb' : TokenBucket) : Type 0 where
  sound : Sound now tb'
  same_interval : tb'.interval ≡ tb.interval
  same_burst : tb'.burst ≡ tb.burst
  no_gain : credit now tb' ≤ credit now tb
  bounded : credit now tb' ≤ tb.burst * tb.interval

refilled-Step : (now : ℕ) (tb : TokenBucket) → Sound now tb → Step now tb (refilled now tb)
unfolding refilled
refilled-Step now tb v =
    let refill = (now - tb.last_time) / tb.interval in
    let below : refill * tb.interval ≤ now - tb.last_time =
      div-mul-le_self (now - tb.last_time) tb.interval in
    let above : now - tb.last_time < refill * tb.interval + tb.interval =
      lt-div-mul-add v.positive in
    let sum : (tb.tokens + refill) * tb.interval ≡ tb.tokens * tb.interval + refill * tb.interval =
      add-mul tb.tokens refill tb.interval in
    elim (Bool-cases (leb (tb.burst - tb.tokens) refill)) [
      | inl full ↦
          let most : tb.burst * tb.interval ≤ (tb.tokens + refill) * tb.interval =
            mul-le-mul_right tb.interval (ground (arith, full)) in
          rw full (record {
            sound = record { positive = v.positive; tokens_fit = omega arith; past = omega arith };
            same_interval = refl;
            same_burst = refl;
            no_gain = omega (arith, most, sum, below);
            bounded = omega arith;
          })
      | inr partial ↦
          let room : tb.tokens + refill < tb.burst = ground (arith, partial, v.tokens_fit) in
          let most : (tb.tokens + refill) * tb.interval + tb.interval ≤ tb.burst * tb.interval =
            omega (
              arith,
              suc-mul (tb.tokens + refill) tb.interval,
              mul-le-mul_right tb.interval room,
            ) in
          rw partial (record {
            sound = record {
              positive = v.positive;
              tokens_fit = omega (arith, room);
              past = omega (arith, below, v.past);
            };
            same_interval = refl;
            same_burst = refl;
            no_gain = omega (arith, sum, below, v.past);
            bounded = omega (arith, sum, below, above, v.past, most);
          })
    ]

abbrev cost : Bool → ℕ → ℕ
cost true interval = interval
cost false interval = 0

-- A request costs the interval of one token if it is let through.
allow_at-Step :
    (now : ℕ) (tb : TokenBucket)
    → Sound now tb
    → let (tb', through) = allow_at now tb in
      Sound now tb'
      × (tb'.interval ≡ tb.interval)
      × (tb'.burst ≡ tb.burst)
      × (cost through tb.interval + credit now tb' ≤ credit now tb)
      × (cost through tb.interval + credit now tb' ≤ tb.burst * tb.interval)
unfolding allow_at
allow_at-Step now tb v =
    let full = refilled now tb in
    let w = refilled-Step now tb v in
    elim (Bool-cases (ltb 0 full.tokens)) [
      | inl some_left ↦
          let one_less : full.tokens ≡ suc (full.tokens - 1) = ground (arith, some_left) in
          let less : full.tokens * full.interval
              ≡ (full.tokens - 1) * full.interval + full.interval =
            ap (λ x. x * full.interval) one_less ∙ suc-mul (full.tokens - 1) full.interval in
          rw some_left (
            record {
              positive = w.sound.positive;
              tokens_fit = omega (arith, w.sound.tokens_fit);
              past = w.sound.past;
            },
            w.same_interval,
            w.same_burst,
            omega (arith, less, w.no_gain, w.same_interval),
            omega (arith, less, w.bounded, w.same_interval),
          )
      | inr empty ↦ rw empty (
        w.sound,
        w.same_interval,
        w.same_burst,
        omega (arith, w.no_gain),
        omega (arith, w.bounded),
      )
    ]

-- Times in their order, from one that is no later than all to one that is no earlier.
abbrev pub Between : ℕ → ℕ → List ℕ → Type 0
Between from until [] = from ≤ until
Between from until (t ∷ ts) = (from ≤ t) × Between t until ts

later-credit :
    (now until : ℕ) (tb : TokenBucket)
    → Sound now tb
    → now ≤ until
    → credit until tb ≡ credit now tb + (until - now)
later-credit now until tb v le = omega (arith, le, v.past)

Between-le : (from until : ℕ) (ts : List ℕ) → Between from until ts → from ≤ until
Between-le from until [] b = b
Between-le from until (t ∷ ts) b = omega (arith, b.0, Between-le t until ts b.1)

later-Sound : (now t : ℕ) (tb : TokenBucket) → now ≤ t → Sound now tb → Sound t tb
later-Sound now t tb le v = record {
  positive = v.positive;
  tokens_fit = v.tokens_fit;
  past = omega (arith, le, v.past);
}

one_more :
    (through : Bool) (n interval : ℕ)
    → (if through then suc n else n) * interval ≡ cost through interval + n * interval
one_more true n interval = omega (arith, suc-mul n interval)
one_more false n interval = omega arith

-- The request at `t` and those after it cost no more than what the first leaves of the credit.
allowed-cost :
    (t until : ℕ) (ts : List ℕ) (tb : TokenBucket)
    → Sound t tb
    → Between t until ts
    → ((tb' : TokenBucket) → Sound t tb' → allowed tb' ts * tb'.interval ≤ credit until tb')
    → let (tb', through) = allow_at t tb in
      allowed tb (t ∷ ts) * tb.interval ≤ cost through tb.interval + credit t tb' + (until - t)
unfolding allowed
allowed-cost t until ts tb v b rest =
    let (tb', through) = allow_at t tb in
    let w = allow_at-Step t tb v in
    let le = Between-le t until ts b in
    let same : allowed tb' ts * tb.interval ≡ allowed tb' ts * tb'.interval =
      ap (λ x. allowed tb' ts * x) (sym w.1) in
    omega (
      arith,
      one_more through (allowed tb' ts) tb.interval,
      same,
      rest tb' w.0,
      later-credit t until tb' w.0 le,
    )

-- What is let through costs no more than the credit.
allowed-credit :
    (now until : ℕ) (ts : List ℕ) (tb : TokenBucket)
    → Sound now tb
    → Between now until ts
    → allowed tb ts * tb.interval ≤ credit until tb
unfolding allowed
allowed-credit now until [] tb v b = omega (arith, zero-mul tb.interval)
allowed-credit now until (t ∷ ts) tb v b =
    let later = later-Sound now t tb b.0 v in
    omega (
      arith,
      allowed-cost t until ts tb later b.1 (λ tb' v'. allowed-credit t until ts tb' v' b.1),
      (allow_at-Step t tb later).3,
      later-credit t until tb later (Between-le t until ts b.1),
    )

-- The rate is bounded in every window, whatever came before. Of the requests at times from `t`, in
-- their order, to `until`, a bucket with a positive interval, no more tokens than its burst and a
-- last time no later than `t` lets through at most its burst, and one more for each interval of the
-- window.
pub rate_bounded :
    (t until : ℕ) (ts : List ℕ) (tb : TokenBucket)
    → Sound t tb
    → Between t until ts
    → allowed tb (t ∷ ts) * tb.interval ≤ tb.burst * tb.interval + (until - t)
rate_bounded t until ts tb v b = omega (
  arith,
  allowed-cost t until ts tb v b (λ tb' v'. allowed-credit t until ts tb' v' b),
  (allow_at-Step t tb v).4,
)

-- A bucket never starves a client: with a positive burst, a request that comes an interval or more
-- after the last refill is let through.
pub interval_admits :
    (now : ℕ) (tb : TokenBucket)
    → 0 < tb.interval
    → 0 < tb.burst
    → tb.last_time + tb.interval ≤ now
    → (allow_at now tb).1 ≡ true
unfolding allow_at refilled
interval_admits now tb positive limited waited =
    let refill = (now - tb.last_time) / tb.interval in
    let one_token : 1 ≤ refill =
      (le-div_iff_mul-le positive).1 (omega (arith, waited, one-mul tb.interval)) in
    ground (arith, one_token, limited)
