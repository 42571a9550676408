-- ===== src/Examples/Servers.antt =====
-- The limiter and the session store of src/aftp/server.rs on concrete states.
use agentic_file_transfer.Base.{
  ◌+◌, ◌≤◌, ◌<◌, ◌≡◌, ◌↔◌, refl, [], ◌∷◌, none, some, arith, List, length, true, false,
}
use agentic_file_transfer.Base.Table.{lookup, bytes_key}
use agentic_file_transfer.Server.RateLimit.{
  AuthRateLimiter, is_locked_out, elapsed_secs, record_failure, is_recent,
}
use agentic_file_transfer.Server.Tally.{Event, failed, checked, cleared, run}
use agentic_file_transfer.Server.Lockout.{lockout_holds, lockout_ends, record_failure_grows}
use agentic_file_transfer.Server.Sessions.{SessionEntry, SessionStore, create, update_progress, get}
use agentic_file_transfer.Server.Resume.{
  length-create_le, get_iff, get-update_progress-create, get_foreign_ends,
}

-- Address 7 has failed four times, at one second.
abbrev four_failures : AuthRateLimiter
four_failures = record { failures = (7, (4, 1_000_000_000)) ∷ [] }

lockout_holds_example :
    (is_locked_out 50_000_000_000 7 (
      run
        (failed 3_000_000_000 8 ∷ cleared 9 ∷ [])
        (record_failure 2_000_000_000 7 four_failures))).1
    ≡ true
unfolding lookup
lockout_holds_example =
    lockout_holds 7 2_000_000_000 50_000_000_000 (failed 3_000_000_000 8 ∷ cleared 9 ∷ [])
      four_failures (omega arith) (omega arith) (omega arith)
      ((omega arith, omega arith), (omega arith, tt))

-- Address 7 has failed five times, at one second.
abbrev five_failures : AuthRateLimiter
five_failures = record { failures = (7, (5, 1_000_000_000)) ∷ [] }

-- Three failures of address 7, among those of others.
abbrev three_more : List Event
three_more =
    failed 62_000_000_000 7
    ∷ failed 63_000_000_000 8
    ∷ failed 64_000_000_000 7
    ∷ checked 65_000_000_000 7
    ∷ failed 66_000_000_000 7
    ∷ []

lockout_ends_example :
    let (l', answer) = is_locked_out 61_000_000_000 7 five_failures in
    (answer ≡ false) × ((is_locked_out 70_000_000_000 7 (run three_more l')).1 ≡ false)
unfolding lookup
lockout_ends_example =
    lockout_ends 7 61_000_000_000 70_000_000_000 three_more five_failures (omega arith, omega arith)
      (omega arith)

four_failures-is_recent : is_recent 2_000_000_000 (4, 1_000_000_000) ≡ true
unfolding is_recent
four_failures-is_recent = refl

record_failure_grows_example :
    length (record_failure 2_000_000_000 8 four_failures).failures
    ≡ length four_failures.failures + 1
unfolding lookup
record_failure_grows_example =
    record_failure_grows 2_000_000_000 8 four_failures refl (four_failures-is_recent, tt)

abbrev entry : SessionEntry
entry = record { ip = 7; created = 0; path = []; bytes_received = 5; authenticated = true }

abbrev store : SessionStore
store = (1 ∷ 2 ∷ [], entry) ∷ []

get-update_progress-create_example :
    let s' = update_progress (3 ∷ []) (97 ∷ []) 100 (create 1_000_000_000 (3 ∷ []) 8 true store) in
    get 2_000_000_000 (3 ∷ []) 8 s' ≡ (
      s',
      some (record {
        ip = 8;
        created = 1_000_000_000;
        path = 97 ∷ [];
        bytes_received = 100;
        authenticated = true;
      }),
    )
get-update_progress-create_example =
    get-update_progress-create 1_000_000_000 2_000_000_000 (3 ∷ []) 8 true (97 ∷ []) 100 store
      (omega arith)

get_iff_example : ((get 2_000_000_000 (1 ∷ 2 ∷ []) 7 store).1 ≡ some entry) ↔ (
    (lookup (1 ∷ 2 ∷ []) store ≡ some entry)
    × (entry.ip ≡ 7)
    × (elapsed_secs 2_000_000_000 0 < 600))
get_iff_example = get_iff 2_000_000_000 (1 ∷ 2 ∷ []) 7 store entry

length-create_le_example : length (create 1_000_000_000 (3 ∷ []) 8 true store) ≤ 10_001
length-create_le_example = length-create_le 1_000_000_000 (3 ∷ []) 8 true store

get_foreign_ends_example :
    let (s', answer) = get 1_000_000_000 (1 ∷ 2 ∷ []) 8 store in
    (answer ≡ none) × ((get 2_000_000_000 (1 ∷ 2 ∷ []) 7 s').1 ≡ none)
unfolding lookup
get_foreign_ends_example =
    get_foreign_ends 1_000_000_000 2_000_000_000 (1 ∷ 2 ∷ []) 8 7 entry store refl (omega arith)
