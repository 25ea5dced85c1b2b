-- ===== src/Api/Breaker.antt =====
-- `CircuitBreaker` of backend/app/services/api/base_client.py. Times are readings of
-- `time.monotonic()` in a fixed unit; each method that reads the clock takes the reading.
pub mod Laws
pub mod Traces
use sales_lead_gen.Base.{ℕ, ◌+◌, Bool, true, false, ◌&&◌, ◌||◌, not, leb, if◌then◌else◌}

pub data State : Type 0 where
  closed opened half_open : State

abbrev pub is_closed : State → Bool
is_closed closed = true
is_closed _ = false

abbrev pub is_opened : State → Bool
is_opened opened = true
is_opened _ = false

abbrev pub is_half_open : State → Bool
is_half_open half_open = true
is_half_open _ = false

pub record CircuitBreaker : Type 0 where
  pub failure_threshold : ℕ
  pub recovery_timeout : ℕ
  pub state : State
  pub failure_count : ℕ
  pub opened_at : ℕ
  pub half_open_probe_sent : Bool

unfoldable pub new : ℕ → ℕ → CircuitBreaker
new failure_threshold recovery_timeout = record {
  failure_threshold = failure_threshold;
  recovery_timeout = recovery_timeout;
  state = closed;
  failure_count = 0;
  opened_at = 0;
  half_open_probe_sent = false;
}

-- `now - opened_at >= recovery_timeout`, with no subtraction.
unfoldable pub recovered : ℕ → CircuitBreaker → Bool
recovered now b = leb (b.opened_at + b.recovery_timeout) now

-- The `state` property: reading it may move the breaker from open to half-open.
unfoldable pub read_state : ℕ → CircuitBreaker → CircuitBreaker
unfolding recovered
read_state now b =
    if is_opened b.state && recovered now b
    then record b { state = half_open; half_open_probe_sent = false }
    else b

unfoldable pub record_success : CircuitBreaker → CircuitBreaker
record_success b = record b { failure_count = 0; state = closed; half_open_probe_sent = false }

unfoldable pub record_failure : ℕ → CircuitBreaker → CircuitBreaker
record_failure now b =
    let counted = record b { failure_count = b.failure_count + 1 } in
    if is_half_open counted.state || leb counted.failure_threshold counted.failure_count
    then record counted { state = opened; opened_at = now; half_open_probe_sent = false }
    else counted

-- The second part of `allow_request`, on the state that was read.
unfoldable pub admit : CircuitBreaker → CircuitBreaker × Bool
admit b =
    if is_closed b.state
    then (b, true)
    else if is_half_open b.state && not b.half_open_probe_sent
    then (record b { half_open_probe_sent = true }, true)
    else (b, false)

unfoldable pub allow_request : ℕ → CircuitBreaker → CircuitBreaker × Bool
unfolding read_state admit
allow_request now b = admit (read_state now b)
