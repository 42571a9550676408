-- ===== src/Server/Tally.antt =====
-- Sequences of calls of `AuthRateLimiter` of src/aftp/server.rs, and how many failures of an address
-- they can leave.
use agentic_file_transfer.Base.{
  ℕ, zero, suc, ◌+◌, ◌-◌, ◌*◌, ◌/◌, ◌%◌, ◌^◌, ◌≤◌, ◌<◌, ◌≡◌, ◌≢◌, refl, ap, sym, ◌∙◌, Bool, true,
  false, Option, none, some, List, [], ◌∷◌, arith, length, leb, ltb, if◌then◌else◌, Bool-cases, inl,
  inr,
}
use agentic_file_transfer.Base
use agentic_file_transfer.Base.Table.{Table, lookup, insert, remove, retain, nat_eq}
use agentic_file_transfer.Server.RateLimit.{
  AuthRateLimiter, Failure, elapsed_secs, is_locked_out, lockout_check, next_failure, is_recent,
  cleanup_expired, count_failure, cleanup_above, record_failure, clear,
}

-- What the limiter knows of an address.
abbrev pub known : ℕ → AuthRateLimiter → Option Failure
known ip l = lookup ip l.failures

abbrev pub count_of : Option Failure → ℕ
count_of none = 0
count_of (some (c, t)) = c

-- The failures of an address so far.
abbrev pub failure_count : ℕ → AuthRateLimiter → ℕ
failure_count ip l = count_of (known ip l)

pub next_failure_lem :
    (now : ℕ) (o : Option Failure) → next_failure now o ≡ ((count_of o + 1) % 2 ^ 32, now)
unfolding next_failure
next_failure_lem now none = refl
next_failure_lem now (some (c, t)) = refl

-- What happens to a limiter: an address, the time, and what it does.
pub data Event : Type 0 where
  failed checked : ℕ → ℕ → Event
  cleared : ℕ → Event

abbrev pub apply : Event → AuthRateLimiter → AuthRateLimiter
apply (failed now j) l = record_failure now j l
apply (checked now j) l = (is_locked_out now j l).0
apply (cleared j) l = clear j l

abbrev pub run : List Event → AuthRateLimiter → AuthRateLimiter
run [] l = l
run (e ∷ es) l = run es (apply e l)

-- No entry of the address has more failures than `n`.
abbrev pub AtMost : ℕ → ℕ → Table ℕ Failure → Type 0
AtMost ip n [] = Unit
AtMost ip n ((j, f) ∷ m) = (ip ≡ j → f.0 ≤ n) × AtMost ip n m

pub AtMost-none : (ip : ℕ) (m : Table ℕ Failure) → lookup ip m ≡ none → AtMost ip 0 m
unfolding lookup
AtMost-none ip [] h = tt
AtMost-none ip ((j, f) ∷ m) h = elim (Bool-cases (Base.◌==◌ ip j)) [
  | inl same ↦ cc (rw same at h)
  | inr other ↦ ((λ e. cc (other, (Base.==_iff ip j).1 e)), AtMost-none ip m (rw other at h))
]

AtMost-more : (ip n k : ℕ) (m : Table ℕ Failure) → AtMost ip n m → AtMost ip (n + k) m
AtMost-more ip n k [] a = tt
AtMost-more ip n k ((j, f) ∷ m) (here, a) = ((λ e. omega (arith, here e)), AtMost-more ip n k m a)

AtMost-remove : (ip n j : ℕ) (m : Table ℕ Failure) → AtMost ip n m → AtMost ip n (remove j m)
unfolding remove
AtMost-remove ip n j [] a = tt
AtMost-remove ip n j ((i, f) ∷ m) (here, a) = elim (Bool-cases (Base.◌==◌ j i)) [
  | inl same ↦ rw same (AtMost-remove ip n j m a)
  | inr other ↦ rw other (here, AtMost-remove ip n j m a)
]

AtMost-retain :
    (ip n : ℕ) (p : Failure → Bool) (m : Table ℕ Failure) → AtMost ip n m → AtMost ip n (retain p m)
unfolding retain
AtMost-retain ip n p [] a = tt
AtMost-retain ip n p ((i, f) ∷ m) (here, a) = elim (Bool-cases (p f)) [
  | inl kept ↦ rw kept (here, AtMost-retain ip n p m a)
  | inr gone ↦ rw gone (AtMost-retain ip n p m a)
]

AtMost-insert :
    (ip n j : ℕ) (f : Failure) (m : Table ℕ Failure)
    → (ip ≡ j → f.0 ≤ n)
    → AtMost ip n m
    → AtMost ip n (insert j f m)
unfolding insert
AtMost-insert ip n j f [] new a = (new, tt)
AtMost-insert ip n j f ((i, g) ∷ m) new (here, a) = elim (Bool-cases (Base.◌==◌ j i)) [
  | inl same ↦ rw same (new, a)
  | inr other ↦ rw other (here, AtMost-insert ip n j f m new a)
]

AtMost-count : (ip n : ℕ) (m : Table ℕ Failure) → AtMost ip n m → count_of (lookup ip m) ≤ n
unfolding lookup
AtMost-count ip n [] a = omega arith
AtMost-count ip n ((j, f) ∷ m) (here, a) = elim (Bool-cases (Base.◌==◌ ip j)) [
  | inl same ↦ rw same (here ((Base.==_iff ip j).0 same))
  | inr other ↦ rw other (AtMost-count ip n m a)
]

AtMost-cleanup_above :
    (ip n limit now : ℕ) (l : AuthRateLimiter)
    → AtMost ip n l.failures
    → AtMost ip n (cleanup_above limit now l).failures
unfolding cleanup_above cleanup_expired
AtMost-cleanup_above ip n limit now l a = elim (Bool-cases (ltb limit (length l.failures))) [
  | inl above ↦ rw above (AtMost-retain ip n (is_recent now) l.failures a)
  | inr within ↦ rw within a
]

AtMost-lockout_check :
    (ip n now j : ℕ) (l : AuthRateLimiter) (o : Option Failure)
    → AtMost ip n l.failures
    → AtMost ip n (lockout_check now j l o).0.failures
unfolding lockout_check
AtMost-lockout_check ip n now j l none a = a
AtMost-lockout_check ip n now j l (some (c, t)) a = elim (Bool-cases (leb 5 c)) [
  | inr few ↦ rw few a
  | inl many ↦ elim (Bool-cases (ltb (elapsed_secs now t) 60)) [
    | inl soon ↦ rw (many, soon) a
    | inr late ↦ rw (many, late) (AtMost-remove ip n j l.failures a)
  ]
]

-- How often the address fails in the course of the events.
abbrev fails : ℕ → Event → ℕ
fails ip (failed now j) = if Base.◌==◌ ip j then 1 else 0
fails ip (checked now j) = 0
fails ip (cleared j) = 0

abbrev pub failures_of : ℕ → List Event → ℕ
failures_of ip [] = 0
failures_of ip (e ∷ es) = fails ip e + failures_of ip es

apply-AtMost :
    (ip n : ℕ) (e : Event) (l : AuthRateLimiter)
    → AtMost ip n l.failures
    → AtMost ip (n + fails ip e) (apply e l).failures
unfolding record_failure count_failure is_locked_out clear
apply-AtMost ip n (failed now j) l a =
    let k : ℕ = if Base.◌==◌ ip j then 1 else 0 in
    let counted =
      AtMost-insert ip (n + k) j (next_failure now (known j l)) l.failures
        (λ e.
          let here : Base.◌==◌ ip j ≡ true = (Base.==_iff ip j).1 e in
          let old : failure_count j l ≤ n = rw (← e) (AtMost-count ip n l.failures a) in
          rw (here, next_failure_lem now (known j l)) (omega (arith, old)))
        (AtMost-more ip n k l.failures a) in
    let half = AtMost-cleanup_above ip (n + k) 5_000 now (count_failure now j l) counted in
    AtMost-cleanup_above ip (n + k) 10_000 now (cleanup_above 5_000 now (count_failure now j l))
      half
apply-AtMost ip n (checked now j) l a =
    AtMost-more ip n 0 _ (AtMost-lockout_check ip n now j l (known j l) a)
apply-AtMost ip n (cleared j) l a = AtMost-more ip n 0 _ (AtMost-remove ip n j l.failures a)

pub run-count :
    (ip n : ℕ) (es : List Event) (l : AuthRateLimiter)
    → AtMost ip n l.failures
    → failure_count ip (run es l) ≤ n + failures_of ip es
run-count ip n [] l a = omega (arith, AtMost-count ip n l.failures a)
run-count ip n (e ∷ es) l a =
    omega (arith, run-count ip (n + fails ip e) es (apply e l) (apply-AtMost ip n e l a))
