-- ===== src/App/Startup.antt =====
-- The constants of distributed/app/main.py, at their defaults, and `startup`: what a process begins with. The
-- environment may give other values, which are the fields of `Settings`. Connecting to Postgres and Redis
-- is left to their clients; `shutdown` only closes what they opened.
use Prim.Native.String
use ticket_selling_system.Prelude.{ℕ, ◌+◌, ◌*◌, ◌≡◌, String}
use ticket_selling_system.Prelude.Decimal.{str, dash, str_after_dash}
use ticket_selling_system.Breaker.{new_breaker}
use ticket_selling_system.Limiter.{Limits, Keys}
use ticket_selling_system.Limiter.Process.{new_local}
use ticket_selling_system.Limiter.Allow.{World}

-- `unit` ticks make a second.
pub record Settings : Type 0 where
  pub instance_id : String
  pub total_tickets : ℕ
  pub queue_wait_timeout_seconds : ℕ
  pub limits : Limits

abbrev pub default_settings : ℕ → Settings
default_settings unit = record {
  instance_id = "app-local";
  total_tickets = 100;
  queue_wait_timeout_seconds = 5;
  limits = record {
    unit = unit;
    token_capacity = 100;
    token_refill_rate = 80;
    leaky_capacity = 400;
    leaky_leak_rate = 80;
  };
}

-- `app.state`, with the name under which the process reads the queue; times are in ticks.
pub record Process : Type 0 where
  pub socket_connect_timeout : ℕ
  pub socket_timeout : ℕ
  pub world : World
  pub consumer_name : String

-- `f"{INSTANCE_ID}-{os.getpid()}"`
unfoldable pub consumer_name_of : String → ℕ → String
consumer_name_of instance_id pid = String.◌++◌ instance_id (String.◌∷◌ dash (str pid))

-- `now` is `time.monotonic()`, and `redis` what Redis keeps for the limiters of all processes.
unfoldable pub startup : Settings → ℕ → ℕ → Keys → Process
unfolding consumer_name_of
startup s now pid redis = record {
  socket_connect_timeout = s.limits.unit;
  socket_timeout = (s.queue_wait_timeout_seconds + 1) * s.limits.unit;
  world = record {
    breaker = new_breaker (2 * s.limits.unit);
    local = new_local s.limits now;
    redis = redis;
  };
  consumer_name = consumer_name_of s.instance_id pid;
}

-- Two processes have the same name in the consumer group only if they have the same INSTANCE_ID
-- and the same process id, whatever characters an INSTANCE_ID has.
pub consumer_name_injective :
    (s t : Settings) (now then_ pid pid' : ℕ) (redis redis' : Keys)
    → (startup s now pid redis).consumer_name ≡ (startup t then_ pid' redis').consumer_name
    → (s.instance_id ≡ t.instance_id) × (pid ≡ pid')
unfolding startup consumer_name_of
consumer_name_injective s t now then_ pid pid' redis redis' e =
    str_after_dash s.instance_id t.instance_id pid pid' e
