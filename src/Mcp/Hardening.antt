-- ===== src/Mcp/Hardening.antt =====
-- internal/mcp/hardening.go: the limits of a listener and its token bucket. Times are nanoseconds;
-- a setting that is not positive is 0, but for the burst, of which a negative one means no limit.
pub mod Bucket
mod Examples
use vision_mcp_manager.Base.{
  ℕ, suc, ◌+◌, ◌-◌, ◌*◌, ◌/◌, Bool, true, false, ltb, leb, nat_beq, if◌then◌else◌, ℤ, pos, negsuc,
  List, [], ◌∷◌,
}

abbrev pub default_max_body_bytes : ℕ
default_max_body_bytes = 4194304

abbrev pub default_read_timeout : ℕ
default_read_timeout = 30000000000

abbrev pub default_read_header_timeout : ℕ
default_read_header_timeout = 10000000000

abbrev pub default_idle_timeout : ℕ
default_idle_timeout = 120000000000

abbrev pub default_rate_burst : ℕ
default_rate_burst = 50

abbrev pub default_rate_interval : ℕ
default_rate_interval = 50000000

pub record HardeningConfig : Type 0 where
  pub max_body_bytes : ℕ
  pub read_timeout : ℕ
  pub read_header_timeout : ℕ
  pub write_timeout : ℤ
  pub idle_timeout : ℕ
  pub rate_burst : ℤ
  pub rate_interval : ℕ

abbrev pub or_default : ℕ → ℕ → ℕ
or_default default value = if ltb 0 value then value else default

pub resolved_max_body_bytes : HardeningConfig → ℕ
resolved_max_body_bytes h = or_default default_max_body_bytes h.max_body_bytes

pub resolved_read_timeout : HardeningConfig → ℕ
resolved_read_timeout h = or_default default_read_timeout h.read_timeout

pub resolved_read_header_timeout : HardeningConfig → ℕ
resolved_read_header_timeout h = or_default default_read_header_timeout h.read_header_timeout

pub resolved_write_timeout : HardeningConfig → ℤ
resolved_write_timeout h = h.write_timeout

pub resolved_idle_timeout : HardeningConfig → ℕ
resolved_idle_timeout h = or_default default_idle_timeout h.idle_timeout

-- `negsuc 0` is -1.
pub resolved_rate_burst : HardeningConfig → ℤ
resolved_rate_burst h = elim h.rate_burst [
  | pos burst ↦ if ltb 0 burst then pos burst else pos default_rate_burst
  | negsuc n ↦ negsuc 0
]

pub resolved_rate_interval : HardeningConfig → ℕ
resolved_rate_interval h = or_default default_rate_interval h.rate_interval

pub record ServerTimeouts : Type 0 where
  pub read_timeout : ℕ
  pub read_header_timeout : ℕ
  pub write_timeout : ℤ
  pub idle_timeout : ℕ

pub apply_server_timeouts : HardeningConfig → ServerTimeouts
unfolding resolved_read_timeout resolved_read_header_timeout resolved_write_timeout
    resolved_idle_timeout
apply_server_timeouts h = record {
  read_timeout = resolved_read_timeout h;
  read_header_timeout = resolved_read_header_timeout h;
  write_timeout = resolved_write_timeout h;
  idle_timeout = resolved_idle_timeout h;
}

pub record TokenBucket : Type 0 where
  pub tokens : ℕ
  pub burst : ℕ
  pub interval : ℕ
  pub last_time : ℕ

pub new_token_bucket : (burst interval now : ℕ) → TokenBucket
new_token_bucket burst interval now = record {
  tokens = burst;
  burst = burst;
  interval = interval;
  last_time = now;
}

-- The refill at `now`, a time no earlier than the last one.
pub refilled : (now : ℕ) → TokenBucket → TokenBucket
refilled now tb =
    let refill = (now - tb.last_time) / tb.interval in
    if leb (tb.burst - tb.tokens) refill
    then record tb { tokens = tb.burst; last_time = now }
    else record tb { tokens = tb.tokens + refill; last_time = tb.last_time + refill * tb.interval }

pub allow_at : (now : ℕ) → TokenBucket → TokenBucket × Bool
unfolding refilled
allow_at now tb =
    let full = refilled now tb in
    if ltb 0 full.tokens then (record full { tokens = full.tokens - 1 }, true) else (full, false)

-- How many of the requests at some times, in their order, are let through.
pub allowed : TokenBucket → List ℕ → ℕ
unfolding allow_at
allowed tb [] = 0
allowed tb (now ∷ times) =
    let (tb', let_through) = allow_at now tb in
    if let_through then suc (allowed tb' times) else allowed tb' times
