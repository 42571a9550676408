-- ===== src/Server/Sessions.antt =====
-- `SessionStore` of src/aftp/server.rs. A time is in nanoseconds and read once by each method; the
-- random session id is an argument.
use agentic_file_transfer.Base.{
  ℕ, zero, suc, ◌-◌, List, [], ◌∷◌, Bool, ◌&&◌, Option, some, none, length, leb, ltb, ◌==◌,
  if◌then◌else◌,
}
use agentic_file_transfer.Base.Table.{Table, lookup, insert, remove, retain, bytes_key}
use agentic_file_transfer.Server.RateLimit.{elapsed_secs}

abbrev pub session_max_age_secs : ℕ
session_max_age_secs = 600

abbrev pub max_sessions : ℕ
max_sessions = 10_000

pub record SessionEntry : Type 0 where
  pub ip : ℕ
  pub created : ℕ
  pub path : List ℕ
  pub bytes_received : ℕ
  pub authenticated : Bool

-- The map of `SessionStore`.
abbrev pub SessionStore : Type 0
SessionStore = Table (List ℕ) SessionEntry

unfoldable pub is_live : ℕ → SessionEntry → Bool
is_live now e = ltb (elapsed_secs now e.created) session_max_age_secs

-- `max_by_key` on the age, which takes the last of the oldest.
unfoldable pub oldest_from :
    ℕ → List ℕ × SessionEntry → List (List ℕ × SessionEntry) → List ℕ × SessionEntry
oldest_from now best [] = best
oldest_from now best (x ∷ m) =
    oldest_from now (if leb (now - best.1.created) (now - x.1.created) then x else best) m

unfoldable pub evict_oldest : ℕ → SessionStore → SessionStore
unfolding oldest_from
evict_oldest now [] = []
evict_oldest now (x ∷ m) = remove (oldest_from now x m).0 (x ∷ m)

-- `while self.sessions.len() > MAX_SESSIONS`
unfoldable pub evict : ℕ → ℕ → SessionStore → SessionStore
unfolding evict_oldest
evict zero now s = s
evict (suc fuel) now s =
    let rest = evict fuel now (evict_oldest now s) in
    if ltb max_sessions (length s) then rest else s

-- Every round removes an entry, so there are no more rounds than entries.
unfoldable pub cleanup_expired : ℕ → SessionStore → SessionStore
unfolding evict is_live
cleanup_expired now s = let live = retain (is_live now) s in evict (length live) now live

unfoldable pub create : ℕ → List ℕ → ℕ → Bool → SessionStore → SessionStore
unfolding cleanup_expired
create now id ip authenticated s =
    insert id
      (record {
        ip = ip;
        created = now;
        path = [];
        bytes_received = 0;
        authenticated = authenticated;
      })
      (cleanup_expired now s)

-- By what is known of the session.
unfoldable pub progressed : Option SessionEntry → List ℕ → List ℕ → ℕ → SessionStore → SessionStore
progressed none id path bytes_received s = s
progressed (some e) id path bytes_received s =
    insert id (record e { path = path; bytes_received = bytes_received }) s

unfoldable pub update_progress : List ℕ → List ℕ → ℕ → SessionStore → SessionStore
unfolding progressed
update_progress id path bytes_received s = progressed (lookup id s) id path bytes_received s

unfoldable pub checked_get :
    ℕ → List ℕ → ℕ → SessionStore → Option SessionEntry → SessionStore × Option SessionEntry
unfolding is_live
checked_get now id ip s none = (remove id s, none)
checked_get now id ip s (some e) =
    if e.ip == ip && is_live now e then (s, some e) else (remove id s, none)

-- `SessionStore::get`: an invalid entry is removed.
unfoldable pub get : ℕ → List ℕ → ℕ → SessionStore → SessionStore × Option SessionEntry
unfolding checked_get
get now id ip s = checked_get now id ip s (lookup id s)

-- `SessionStore::remove`
unfoldable pub remove_session : List ℕ → SessionStore → SessionStore
remove_session id s = remove id s
