-- ===== src/Server/Effects.antt =====
-- What a handler of src/aftp/server.rs reads and changes, and the sequencing of its steps. Writing
-- to the connection is taken to succeed.
use agentic_file_transfer.Base.{ℕ, List, Option, some, none, Result, ok, err, AftError}
use agentic_file_transfer.Frame.Types.{Frame, new_frame}
use agentic_file_transfer.Frame.Io.{Source, read_frame, write_frame}
use agentic_file_transfer.Server.RateLimit.{AuthRateLimiter}
use agentic_file_transfer.Server.Sessions.{SessionStore}

-- The connection, and the state that it shares with the others behind locks.
pub record World : Type 0 where
  pub limiter : AuthRateLimiter
  pub sessions : SessionStore
  pub source : Source
  pub written : List ℕ

-- A step ends with a value, with an error, or in a panic of the connection's task; what it has
-- changed by then stays changed.
pub data Outcome (A : Type 0) : Type 0 where
  returned : A → World → Outcome A
  raised : AftError → World → Outcome A
  panicked : World → Outcome A

abbrev pub Handler : Type 0 → Type 0
Handler A = World → Outcome A

abbrev pub after : {A B : Type 0} → Outcome A → (A → Handler B) → Outcome B
after (returned a w) next = next a w
after (raised e w) next = raised e w
after (panicked w) next = panicked w

infixl 5 ◌>>=◌ ◌>>◌
abbrev pub ◌>>=◌ : {A B : Type 0} → Handler A → (A → Handler B) → Handler B
(step >>= next) w = after (step w) next

abbrev pub ◌>>◌ : {B : Type 0} → Handler (Unit {0}) → Handler B → Handler B
(step >> next) w = after (step w) (λ done. next)

abbrev pub pure : {A : Type 0} → A → Handler A
pure a w = returned a w

abbrev pub fail : {A : Type 0} → AftError → Handler A
fail e w = raised e w

-- `?` on what a parser returned.
abbrev pub lift : {A : Type 0} → Result A → Handler A
lift (ok a) w = returned a w
lift (err e) w = raised e w

-- `write_frame` and `flush`, with the payload of a builder, which panics on a text that is too long.
abbrev pub reply : ℕ → Option (List ℕ) → Handler (Unit {0})
reply frame_type none w = panicked w
reply frame_type (some payload) w =
    returned tt (record w { written = write_frame w.written (new_frame frame_type payload) })

abbrev pub received : Result (Frame × Source) → Handler Frame
received (err e) w = raised e w
received (ok (frame, rest)) w = returned frame (record w { source = rest })

abbrev pub receive : ℕ → Handler Frame
receive max_payload w = received (read_frame w.source max_payload) w

-- What is done under the lock of the limiter or of the sessions.
abbrev pub with_limiter : {A : Type 0} → (AuthRateLimiter → AuthRateLimiter × A) → Handler A
with_limiter f w = let (l, a) = f w.limiter in returned a (record w { limiter = l })

abbrev pub with_sessions : {A : Type 0} → (SessionStore → SessionStore × A) → Handler A
with_sessions f w = let (s, a) = f w.sessions in returned a (record w { sessions = s })
