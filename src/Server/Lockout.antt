-- ===== src/Server/Lockout.antt =====
-- Proofs on `AuthRateLimiter` of src/aftp/server.rs, over sequences of its calls.
use agentic_file_transfer.Base.{
  ℕ, zero, suc, ◌+◌, ◌-◌, ◌*◌, ◌/◌, ◌%◌, ◌^◌, ◌≤◌, ◌<◌, ◌≡◌, ◌≢◌, ◌↔◌, refl, ap, sym, ◌∙◌, Bool,
  true, false, Option, none, some, List, [], ◌∷◌, arith, length, leb, ltb, if◌then◌else◌, All,
  Bool-cases, inl, inr, lt→ltb,
}
use agentic_file_transfer.Base
use agentic_file_transfer.Base.Table.{
  lookup, insert, remove, nat_eq, lookup-insert, lookup-remove, lookup-retain, length-insert_new,
  AllValues, AllValues-insert, retain_all,
}
use agentic_file_transfer.Server.RateLimit.{
  AuthRateLimiter, Failure, elapsed_secs, is_locked_out, lockout_check, next_failure, is_recent,
  cleanup_expired, count_failure, cleanup_above, record_failure, clear,
}
use agentic_file_transfer.Server.Tally.{
  known, count_of, failure_count, next_failure_lem, Event, failed, checked, cleared, apply, run,
  AtMost, AtMost-none, failures_of, run-count,
}

cleanup_above_keeps :
    (limit now ip : ℕ) (f : Failure) (l : AuthRateLimiter)
    → known ip l ≡ some f
    → is_recent now f ≡ true
    → known ip (cleanup_above limit now l) ≡ some f
unfolding cleanup_above cleanup_expired
cleanup_above_keeps limit now ip f l h r =
    ground (arith, lookup-retain ip (is_recent now) f l.failures h r)

known-count_failure :
    (now ip j : ℕ) (l : AuthRateLimiter)
    → known j (count_failure now ip l)
      ≡ (if Base.◌==◌ j ip then some ((failure_count ip l + 1) % 2 ^ 32, now) else known j l)
unfolding count_failure
known-count_failure now ip j l =
    lookup-insert j ip (next_failure now (known ip l)) l.failures
    ∙ ap (λ f. if Base.◌==◌ j ip then some f else known j l) (next_failure_lem now (known ip l))

fresh-is_recent : (now c : ℕ) → is_recent now (c, now) ≡ true
unfolding is_recent
fresh-is_recent now c = ground arith

-- A failure is counted and stamped, and survives its own cleanup.
pub known-record_failure :
    (now ip : ℕ) (l : AuthRateLimiter)
    → known ip (record_failure now ip l) ≡ some ((failure_count ip l + 1) % 2 ^ 32, now)
unfolding record_failure
known-record_failure now ip l =
    let fresh = fresh-is_recent now ((failure_count ip l + 1) % 2 ^ 32) in
    let counted =
      known-count_failure now ip ip l
      ∙ ap (λ b. if b then some ((failure_count ip l + 1) % 2 ^ 32, now) else known ip l)
          (Base.==_refl ip) in
    cleanup_above_keeps _ now ip _ _ (cleanup_above_keeps _ now ip _ _ counted fresh) fresh

-- An event of another address, not later than `by`.
abbrev pub IsForeign : ℕ → ℕ → Event → Type 0
IsForeign ip by (failed now j) = (ip ≢ j) × (now ≤ by)
IsForeign ip by (checked now j) = (ip ≢ j) × (now ≤ by)
IsForeign ip by (cleared j) = ip ≢ j

is_recent_before :
    (now by c t : ℕ) → now ≤ by → elapsed_secs by t < 120 → is_recent now (c, t) ≡ true
unfolding is_recent
is_recent_before now by c t h r = lt→ltb (elapsed_secs now t) 120 (omega arith)

known-remove_other :
    (ip j : ℕ) (l : AuthRateLimiter)
    → ip ≢ j
    → known ip (record { failures = remove j l.failures }) ≡ known ip l
known-remove_other ip j l ne =
    lookup-remove ip j l.failures ∙ ap (λ b. if b then none else known ip l) (Base.ne→== ip j ne)

checked_keeps :
    (now j ip : ℕ) (l : AuthRateLimiter) (o : Option Failure)
    → ip ≢ j
    → known ip (lockout_check now j l o).0 ≡ known ip l
unfolding lockout_check
checked_keeps now j ip l none ne = refl
checked_keeps now j ip l (some (c, t)) ne = ground (arith, known-remove_other ip j l ne)

apply-keeps :
    (ip by c t : ℕ) (e : Event) (l : AuthRateLimiter)
    → elapsed_secs by t < 120
    → known ip l ≡ some (c, t)
    → IsForeign ip by e
    → known ip (apply e l) ≡ some (c, t)
apply-keeps ip by c t (failed now j) l h k f =
    let recent = is_recent_before now by c t f.1 h in
    let counted =
      known-count_failure now j ip l
      ∙ ap (λ b. if b then some ((failure_count j l + 1) % 2 ^ 32, now) else known ip l)
          (Base.ne→== ip j f.0)
      ∙ k in
    unfold record_failure in
    cleanup_above_keeps 10_000 now ip (c, t) (cleanup_above 5_000 now (count_failure now j l))
      (cleanup_above_keeps 5_000 now ip (c, t) (count_failure now j l) counted recent) recent
apply-keeps ip by c t (checked now j) l h k f =
    unfold is_locked_out in checked_keeps now j ip l (known j l) f.0 ∙ k
apply-keeps ip by c t (cleared j) l h k f = unfold clear in known-remove_other ip j l f ∙ k

run-keeps :
    (ip by c t : ℕ) (es : List Event) (l : AuthRateLimiter)
    → elapsed_secs by t < 120
    → known ip l ≡ some (c, t)
    → All (IsForeign ip by) es
    → known ip (run es l) ≡ some (c, t)
run-keeps ip by c t [] l h k f = k
run-keeps ip by c t (e ∷ es) l h k f =
    run-keeps ip by c t es (apply e l) h (apply-keeps ip by c t e l h k f.0) f.1

locked :
    (now ip c t : ℕ) (l : AuthRateLimiter)
    → known ip l ≡ some (c, t)
    → 5 ≤ c
    → elapsed_secs now t < 60
    → is_locked_out now ip l ≡ (l, true)
unfolding is_locked_out
locked now ip c t l k five soon =
    ap (lockout_check now ip l) k ∙ rw (Base.le→leb 5 c five, lt→ltb (elapsed_secs now t) 60 soon)

-- An address with four failures or more, and fewer than 2^32 - 1, that fails again is locked out at
-- every time less than 60 whole seconds later, whatever failures, checks and clears of other
-- addresses, none of the first two later than that time, come in between.
pub lockout_holds :
    (ip now by : ℕ) (es : List Event) (l : AuthRateLimiter)
    → 4 ≤ failure_count ip l
    → failure_count ip l < 2 ^ 32 - 1
    → elapsed_secs by now < 60
    → All (IsForeign ip by) es
    → (is_locked_out by ip (run es (record_failure now ip l))).1 ≡ true
lockout_holds ip now by es l four few soon f =
    let counted = (failure_count ip l + 1) % 2 ^ 32 in
    let kept =
      run-keeps ip by counted now es (record_failure now ip l) (omega arith)
        (known-record_failure now ip l) f in
    ap (λ r. r.1) (locked by ip counted now _ kept (omega (arith, four, few)) soon)

not_locked :
    (now ip : ℕ) (l : AuthRateLimiter) → failure_count ip l < 5 → (is_locked_out now ip l).1 ≡ false
unfolding is_locked_out
not_locked now ip l few = go (known ip l) few
  where
    go : (o : Option Failure) → count_of o < 5 → (lockout_check now ip l o).1 ≡ false
    go none few = unfold lockout_check in refl
    go (some (c, t)) few =
        let under : leb 5 c ≡ false = ground arith in unfold lockout_check in rw under refl

-- What starts afresh: no failure of the address is known, or its lockout has run out.
abbrev pub StartsAfresh : ℕ → Option Failure → Type 0
StartsAfresh now none = Unit
StartsAfresh now (some (c, t)) = (5 ≤ c) × (60 ≤ elapsed_secs now t)

lockout_check_afresh :
    (now ip : ℕ) (l : AuthRateLimiter) (o : Option Failure)
    → known ip l ≡ o
    → StartsAfresh now o
    → ((lockout_check now ip l o).1 ≡ false) × AtMost ip 0 (lockout_check now ip l o).0.failures
unfolding lockout_check
lockout_check_afresh now ip l none unknown a = (refl, AtMost-none ip l.failures unknown)
lockout_check_afresh now ip l (some (c, t)) k (five, late) =
    let gone : lookup ip (remove ip l.failures) ≡ none =
      lookup-remove ip ip l.failures ∙ ap (λ b. if b then none else known ip l) (Base.==_refl ip) in
    rw (Base.le→leb 5 c five, Base.ge→ltb (elapsed_secs now t) 60 late)
      (refl, AtMost-none ip (remove ip l.failures) gone)

is_locked_out_afresh :
    (now ip : ℕ) (l : AuthRateLimiter)
    → StartsAfresh now (known ip l)
    → ((is_locked_out now ip l).1 ≡ false) × AtMost ip 0 (is_locked_out now ip l).0.failures
unfolding is_locked_out
is_locked_out_afresh now ip l afresh = lockout_check_afresh now ip l (known ip l) refl afresh

-- An address of which no failure is known, or which has five failures or more, the last at least 60
-- seconds ago, is let in by the check; and whatever failures, checks and clears of it and of other
-- addresses follow, it is not locked out at any time, as long as fewer than five of them are
-- failures of that address.
pub lockout_ends :
    (ip now by : ℕ) (es : List Event) (l : AuthRateLimiter)
    → StartsAfresh now (known ip l)
    → failures_of ip es < 5
    → let (l', answer) = is_locked_out now ip l in
      (answer ≡ false) × ((is_locked_out by ip (run es l')).1 ≡ false)
lockout_ends ip now by es l afresh few =
    let (answer, none_left) = is_locked_out_afresh now ip l afresh in
    let l' = (is_locked_out now ip l).0 in
    (answer, not_locked by ip (run es l') (omega (arith, run-count ip 0 es l' none_left)))

cleanup_above_all :
    (limit now : ℕ) (l : AuthRateLimiter)
    → AllValues (is_recent now) l.failures
    → cleanup_above limit now l ≡ l
unfolding cleanup_above cleanup_expired
cleanup_above_all limit now l a = ground (arith, retain_all (is_recent now) l.failures a)

-- If every entry of the limiter is less than 120 seconds old, a failure of an address that is not
-- in it makes it exactly one entry longer, however long it is: MAX_TRACKED_IPS is not a cap.
pub record_failure_grows :
    (now ip : ℕ) (l : AuthRateLimiter)
    → known ip l ≡ none
    → AllValues (is_recent now) l.failures
    → length (record_failure now ip l).failures ≡ length l.failures + 1
unfolding record_failure next_failure count_failure
record_failure_grows now ip l new recent =
    let m = insert ip (1, now) l.failures in
    let all : AllValues (is_recent now) m =
      AllValues-insert (is_recent now) ip (1, now) l.failures (fresh-is_recent now 1) recent in
    let fresh : next_failure now (known ip l) ≡ (1, now) = ap (next_failure now) new in
    rw
      (
        fresh,
        cleanup_above_all 5_000 now (record { failures = m }) all,
        cleanup_above_all 10_000 now (record { failures = m }) all,
      )
      (length-insert_new ip (1, now) l.failures new)
