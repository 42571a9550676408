-- ===== src/Server/RateLimit.antt =====
-- `AuthRateLimiter` of src/aftp/server.rs. An address is a number, and a time is in nanoseconds: each
-- method reads the clock as `now`.
use agentic_file_transfer.Base.{
  ℕ, ◌+◌, ◌-◌, ◌*◌, ◌/◌, ◌%◌, ◌^◌, [], Bool, true, false, Option, none, some, length, leb, ltb,
  if◌then◌else◌,
}
use agentic_file_transfer.Base.Table.{Table, lookup, insert, remove, retain, nat_eq}

abbrev pub auth_max_failures : ℕ
auth_max_failures = 5

abbrev pub auth_lockout_secs : ℕ
auth_lockout_secs = 60

abbrev pub max_tracked_ips : ℕ
max_tracked_ips = 10_000

-- `t.elapsed().as_secs()`
abbrev pub elapsed_secs : ℕ → ℕ → ℕ
elapsed_secs now t = (now - t) / 1_000_000_000

-- The failure count of an address and the time of its last failure.
abbrev pub Failure : Type 0
Failure = ℕ × ℕ

pub record AuthRateLimiter : Type 0 where
  pub failures : Table ℕ Failure

-- `AuthRateLimiter::new`
abbrev pub new_limiter : AuthRateLimiter
new_limiter = record { failures = [] }

-- The limiter and the answer, by what is known of the address.
unfoldable pub lockout_check : ℕ → ℕ → AuthRateLimiter → Option Failure → AuthRateLimiter × Bool
lockout_check now ip l none = (l, false)
lockout_check now ip l (some (count, last_time)) =
    if leb auth_max_failures count
    then if ltb (elapsed_secs now last_time) auth_lockout_secs
      then (l, true)
      else (record { failures = remove ip l.failures }, false)
    else (l, false)

unfoldable pub is_locked_out : ℕ → ℕ → AuthRateLimiter → AuthRateLimiter × Bool
unfolding lockout_check
is_locked_out now ip l = lockout_check now ip l (lookup ip l.failures)

-- Entries are kept for twice the lockout.
unfoldable pub is_recent : ℕ → Failure → Bool
is_recent now (count, last_time) = ltb (elapsed_secs now last_time) (auth_lockout_secs * 2)

unfoldable pub cleanup_expired : ℕ → AuthRateLimiter → AuthRateLimiter
cleanup_expired now l = record { failures = retain (is_recent now) l.failures }

-- `entry(ip).or_insert((0, now))`, counted up, with the wrap-around of a release build, and stamped.
unfoldable pub next_failure : ℕ → Option Failure → Failure
next_failure now none = (1, now)
next_failure now (some (count, _)) = ((count + 1) % 2 ^ 32, now)

unfoldable pub count_failure : ℕ → ℕ → AuthRateLimiter → AuthRateLimiter
unfolding next_failure
count_failure now ip l = record {
  failures = insert ip (next_failure now (lookup ip l.failures)) l.failures;
}

unfoldable pub cleanup_above : ℕ → ℕ → AuthRateLimiter → AuthRateLimiter
cleanup_above limit now l = if ltb limit (length l.failures) then cleanup_expired now l else l

unfoldable pub record_failure : ℕ → ℕ → AuthRateLimiter → AuthRateLimiter
record_failure now ip l =
    cleanup_above max_tracked_ips now
      (cleanup_above (max_tracked_ips / 2) now (count_failure now ip l))

unfoldable pub clear : ℕ → AuthRateLimiter → AuthRateLimiter
clear ip l = record { failures = remove ip l.failures }
