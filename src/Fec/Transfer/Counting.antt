-- ===== src/Fec/Transfer/Counting.antt =====
-- Proofs on the map `done` of src/aftp/fec/transfer.rs: how many blocks are finished.
use agentic_file_transfer.Base.{
  [], ℕ, zero, suc, ◌+◌, ◌≤◌, ◌<◌, ◌≡◌, refl, Bool, true, false, ◌||◌, arith, ◌==◌, if◌then◌else◌,
  Bool-cases, inl, inr, ==_iff,
}
use agentic_file_transfer.Base.Table.{lookup, Table, insert, lookup-insert, nat_eq}
use agentic_file_transfer.Fec.Transfer.Receiver.{is_done}

pub is_done-insert :
    (finished : Table ℕ Bool) (k i : ℕ)
    → is_done (insert k true finished) i ≡ (i == k || is_done finished i)
unfolding is_done
is_done-insert finished k i = ground (arith, lookup-insert i k true finished)

-- The number of finished blocks below `n`.
abbrev pub count_done : ℕ → Table ℕ Bool → ℕ
count_done zero finished = 0
count_done (suc n) finished =
    let below = count_done n finished in if is_done finished n then below + 1 else below

pub count_done_bounds : (n : ℕ) (finished : Table ℕ Bool) → count_done n finished ≤ n
count_done_bounds zero finished = omega arith
count_done_bounds (suc n) finished = ground (arith, count_done_bounds n finished)

pub count_done_all :
    (n : ℕ) (finished : Table ℕ Bool) (i : ℕ)
    → n ≤ count_done n finished
    → i < n
    → is_done finished i ≡ true
count_done_all zero finished i h small = absurd (omega arith)
count_done_all (suc n) finished i h small = elim (Bool-cases (is_done finished n)) [
  | inr open_ ↦ absurd (omega (arith, rw open_ at h, count_done_bounds n finished))
  | inl shut ↦ elim (Bool-cases (i == n)) [
    | inl same ↦ rw ((==_iff i n).0 same) shut
    | inr other ↦
        let below : n + 1 ≤ count_done n finished + 1 = ground (arith, shut) in
        count_done_all n finished i (omega arith) (ground arith)
  ]
]

count_done-insert_above :
    (n k : ℕ) (finished : Table ℕ Bool)
    → n ≤ k
    → count_done n (insert k true finished) ≡ count_done n finished
count_done-insert_above zero k finished h = refl
count_done-insert_above (suc n) k finished h =
    ground (arith, is_done-insert finished k n, count_done-insert_above n k finished)

pub count_done-insert :
    (n k : ℕ) (finished : Table ℕ Bool)
    → k < n
    → is_done finished k ≡ false
    → count_done n (insert k true finished) ≡ count_done n finished + 1
count_done-insert zero k finished h fresh = absurd (omega arith)
count_done-insert (suc n) k finished h fresh = ground (
  arith,
  is_done-insert finished k n,
  count_done-insert_above n k finished,
  count_done-insert n k finished,
)

pub count_done-empty : (n : ℕ) → count_done n [] ≡ 0
unfolding is_done lookup
count_done-empty zero = refl
count_done-empty (suc n) = count_done-empty n
