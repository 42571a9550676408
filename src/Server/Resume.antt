-- ===== src/Server/Resume.antt =====
-- Proofs on `SessionStore` of src/aftp/server.rs.
use agentic_file_transfer.Base.{
  ℕ, zero, suc, ◌+◌, ◌≤◌, ◌<◌, ◌≡◌, ◌≢◌, ◌↔◌, refl, ap, ◌∙◌, Bool, true, Option, some, none, List,
  [], ◌∷◌, arith, length, ltb, if◌then◌else◌, Bool-cases, inl, inr, ltb→lt, ltb→ge,
}
use agentic_file_transfer.Base.Table.{
  lookup, remove, retain, bytes_key, lookup-insert, lookup-remove, length-insert, length-remove_in,
  has_key, key_refl,
}
use agentic_file_transfer.Server.RateLimit.{elapsed_secs}
use agentic_file_transfer.Server.Sessions.{
  SessionEntry, SessionStore, is_live, oldest_from, evict_oldest, evict, cleanup_expired, create,
  progressed, update_progress, checked_get, get,
}

has_key-oldest_from :
    (now : ℕ) (best : List ℕ × SessionEntry) (m : SessionStore)
    → has_key (oldest_from now best m).0 (best ∷ m) ≡ true
unfolding oldest_from has_key
has_key-oldest_from now best [] = rw (key_refl best.0)
has_key-oldest_from now best (x ∷ m) =
    ground (arith, has_key-oldest_from now x m, has_key-oldest_from now best m)

evict_oldest-lt :
    (now : ℕ) (s : SessionStore) → 1 ≤ length s → length (evict_oldest now s) + 1 ≤ length s
unfolding evict_oldest
evict_oldest-lt now [] h = absurd (omega arith)
evict_oldest-lt now (x ∷ m) h = length-remove_in _ (x ∷ m) (has_key-oldest_from now x m)

evict-le : (fuel now : ℕ) (s : SessionStore) → length s ≤ fuel → length (evict fuel now s) ≤ 10_000
unfolding evict
evict-le zero now s h = omega arith
evict-le (suc fuel) now s h = elim (Bool-cases (ltb 10_000 (length s))) [
  | inl over ↦
      let less = evict_oldest-lt now s (omega (arith, ltb→lt 10_000 (length s) over)) in
      rw over (evict-le fuel now (evict_oldest now s) (omega (arith, less)))
  | inr under ↦ rw under (ltb→ge 10_000 (length s) under)
]

-- create leaves at most 10,001 sessions in the store, one more than MAX_SESSIONS, however many
-- there were.
pub length-create_le :
    (now : ℕ) (id : List ℕ) (ip : ℕ) (authenticated : Bool) (s : SessionStore)
    → length (create now id ip authenticated s) ≤ 10_001
unfolding create cleanup_expired
length-create_le now id ip b s =
    let live = retain (is_live now) s in
    let few = evict-le (length live) now live (omega arith) in
    omega (
      arith,
      length-insert id
          (record { ip = ip; created = now; path = []; bytes_received = 0; authenticated = b })
          (evict (length live) now live),
    )

-- get returns an entry exactly if the store holds it under that id, its address is the caller's and
-- it is less than 600 seconds old.
pub get_iff :
    (now : ℕ) (id : List ℕ) (ip : ℕ) (s : SessionStore) (e : SessionEntry)
    → ((get now id ip s).1 ≡ some e)
      ↔ ((lookup id s ≡ some e) × (e.ip ≡ ip) × (elapsed_secs now e.created < 600))
unfolding get checked_get is_live
get_iff now id ip s e = go (lookup id s)
  where
    go :
        (o : Option SessionEntry)
        → ((checked_get now id ip s o).1 ≡ some e)
          ↔ ((o ≡ some e) × (e.ip ≡ ip) × (elapsed_secs now e.created < 600))
    go none = (λ h. ground arith, λ h. ground arith)
    go (some e') = (λ h. ground arith, λ h. ground arith)

lookup-create :
    (now : ℕ) (id : List ℕ) (ip : ℕ) (authenticated : Bool) (s : SessionStore)
    → lookup id (create now id ip authenticated s)
      ≡ some (record {
        ip = ip;
        created = now;
        path = [];
        bytes_received = 0;
        authenticated = authenticated;
      })
unfolding create
lookup-create now id ip b s =
    let e : SessionEntry = record {
      ip = ip;
      created = now;
      path = [];
      bytes_received = 0;
      authenticated = b;
    } in
    lookup-insert id id e (cleanup_expired now s)
    ∙ ap (λ t. if t then some e else lookup id (cleanup_expired now s)) (key_refl id)

lookup-update_progress :
    (id path : List ℕ) (bytes_received : ℕ) (e : SessionEntry) (s : SessionStore)
    → lookup id s ≡ some e
    → lookup id (update_progress id path bytes_received s)
      ≡ some (record e { path = path; bytes_received = bytes_received })
unfolding update_progress progressed
lookup-update_progress id path n e s k =
    let e' : SessionEntry = record e { path = path; bytes_received = n } in
    ap (λ o. lookup id (progressed o id path n s)) k
    ∙ lookup-insert id id e' s
    ∙ ap (λ t. if t then some e' else lookup id s) (key_refl id)

get_live :
    (now : ℕ) (id : List ℕ) (ip : ℕ) (e : SessionEntry) (s : SessionStore)
    → lookup id s ≡ some e
    → e.ip ≡ ip
    → elapsed_secs now e.created < 600
    → get now id ip s ≡ (s, some e)
unfolding get checked_get is_live
get_live now id ip e s k same young = ap (checked_get now id ip s) k ∙ ground arith

-- A session that an address creates and whose progress is then reported is handed out to that
-- address, with that path and byte count, at every time less than 600 whole seconds after its
-- creation, and the store is left as it is.
pub get-update_progress-create :
    (now later : ℕ) (id : List ℕ) (ip : ℕ) (authenticated : Bool) (path : List ℕ)
    (bytes_received : ℕ) (s : SessionStore)
    → elapsed_secs later now < 600
    → let s' = update_progress id path bytes_received (create now id ip authenticated s) in
      get later id ip s' ≡ (
        s',
        some (record {
          ip = ip;
          created = now;
          path = path;
          bytes_received = bytes_received;
          authenticated = authenticated;
        }),
      )
get-update_progress-create now later id ip b path n s young =
    get_live later id ip _ _
      (lookup-update_progress id path n _ (create now id ip b s) (lookup-create now id ip b s)) refl
      young

-- A get with the id of a session of another address returns nothing, and after it every later get
-- with that id returns nothing, to whatever address.
pub get_foreign_ends :
    (now later : ℕ) (id : List ℕ) (ip owner : ℕ) (e : SessionEntry) (s : SessionStore)
    → lookup id s ≡ some e
    → e.ip ≢ ip
    → let (s', answer) = get now id ip s in (answer ≡ none) × ((get later id owner s').1 ≡ none)
unfolding get
get_foreign_ends now later id ip owner e s k foreign =
    let refused : checked_get now id ip s (lookup id s) ≡ (remove id s, none) =
      ap (checked_get now id ip s) k ∙ (unfold checked_get in ground arith) in
    let gone : lookup id (remove id s) ≡ none =
      lookup-remove id id s ∙ ap (λ t. if t then none else lookup id s) (key_refl id) in
    (
      ap (λ r. r.1) refused,
      ap (λ r. (checked_get later id owner r.0 (lookup id r.0)).1) refused
          ∙ ap (λ o. (checked_get later id owner (remove id s) o).1) gone
          ∙ (unfold checked_get in refl),
    )
