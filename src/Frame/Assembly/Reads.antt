-- ===== src/Frame/Assembly/Reads.antt =====
-- One read of the assembler in src/aftp/frame.rs, and the buffer behind it.
use agentic_file_transfer.Base.{
  ℕ, ◌+◌, ◌≤◌, ◌≡◌, refl, sym, ap, ◌∙◌, List, [], ◌∷◌, ◌++◌, inl, inr, arith, append_assoc, length,
  take, drop, leb, length-append, length-take, length-drop, All, take-append_self, take-append-drop,
  Bool-cases, leb→le, leb→gt, tests,
}
use agentic_file_transfer.Frame.Assembler.{read, splice}

abbrev pub flatten : List (List ℕ) → List ℕ
flatten [] = []
flatten (c ∷ cs) = c ++ flatten cs

-- An open connection delivers no empty read.
abbrev pub IsOpen : List (List ℕ) → Type 0
IsOpen = All (λ c. 1 ≤ length c)

-- What one read takes from bytes of which at least `room` are expected.
pub record Got (room : ℕ) (w rest got : List ℕ) (cs : List (List ℕ)) (w' : List ℕ) : Type 0 where
  pub split : w ≡ got ++ w'
  pub some_got : 1 ≤ length got
  pub room_kept : length got ≤ room
  pub left : flatten cs ≡ w' ++ rest
  pub still_open : IsOpen cs

pub append_take :
    (xs ys w rest : List ℕ)
    → xs ++ ys ≡ w ++ rest
    → length xs ≤ length w
    → (w' : List ℕ) × (w ≡ xs ++ w') × (ys ≡ w' ++ rest)
append_take [] ys w rest e h = (w, refl, e)
append_take (x ∷ xs) ys [] rest e h = elim h [ ]
append_take (x ∷ xs) ys (v ∷ w) rest e h =
    let (w', e1, e2) = append_take xs ys w rest (ground arith) (omega arith) in (w', cc (e, e1), e2)

pub read-Got :
    (room : ℕ) (cs : List (List ℕ)) (w rest : List ℕ)
    → 1 ≤ room
    → room ≤ length w
    → IsOpen cs
    → flatten cs ≡ w ++ rest
    → (w' : List ℕ) × Got room w rest (read room cs).0 (read room cs).1 w'
unfolding read
read-Got room [] (v ∷ w) rest h k o e = absurd (cc e)
read-Got room [] [] rest h k o e = absurd (omega arith)
read-Got room (c ∷ cs) w rest h k (o, os) e = elim (Bool-cases (leb (length c) room)) [
  | inl whole ↦
      let (w', e1, e2) = append_take c (flatten cs) w rest e (omega (tests, whole)) in
      (
        w',
        rw whole (record {
          split = e1;
          some_got = o;
          room_kept = leb→le (length c) room whole;
          left = e2;
          still_open = os;
        }),
      )
  | inr part ↦
      let n = length-take room c in
      let long = leb→gt (length c) room part in
      let (w', e1, e2) =
        append_take (take room c) (drop room c ++ flatten cs) w rest
          (sym (append_assoc (take room c) (drop room c) (flatten cs))
            ∙ ap (λ t. t ++ flatten cs) (take-append-drop room c)
            ∙ e)
          (omega arith) in
      (
        w',
        rw part (record {
          split = e1;
          some_got = omega arith;
          room_kept = omega arith;
          left = e2;
          still_open = (omega (arith, length-drop room c), os);
        }),
      )
]

-- The filled part of the buffer after a read.
pub take-splice :
    (buf got : List ℕ) (at : ℕ)
    → at + length got ≤ length buf
    → take (at + length got) (splice buf at got) ≡ take at buf ++ got
unfolding splice
take-splice buf got at h =
    let n = length-append (take at buf) got in
    let m = length-take at buf in
    let front : length (take at buf ++ got) ≡ at + length got = omega arith in
    rw (← append_assoc (take at buf) got (drop (at + length got) buf)) (
      ap (λ k. take k ((take at buf ++ got) ++ drop (at + length got) buf)) (sym front)
      ∙ take-append_self (take at buf ++ got) (drop (at + length got) buf))

pub length-splice :
    (buf got : List ℕ) (at : ℕ)
    → at + length got ≤ length buf
    → length (splice buf at got) ≡ length buf
unfolding splice
length-splice buf got at h = omega (
  arith,
  length-append (take at buf) (got ++ drop (at + length got) buf),
  length-append got (drop (at + length got) buf),
  length-take at buf,
  length-drop (at + length got) buf,
)
