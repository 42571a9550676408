-- ===== src/Server/Enclosed.antt =====
-- Proofs on the paths of src/aftp/server.rs.
use agentic_file_transfer.Base.{
  ℕ, ◌≡◌, refl, sym, subst, ap, ◌∙◌, inl, inr, List, [], ◌∷◌, ◌++◌, Bool, true, false, not, ok,
  AftError, if-cases, All, raise_if, append-nil, append_assoc,
}
use agentic_file_transfer.Base.Fallible.{◌>>=◌, ◌>>◌, >>=-eq-ok}
use agentic_file_transfer.Server.Texts.{outside_root}
use agentic_file_transfer.Frame.Yields.{ok_inj, raise_if-eq-ok}
use agentic_file_transfer.Server.Rooted.{
  Components, FileTree, has_dots, trim_slashes, replace_backslashes, join, is_below, backwards,
  canonical_below, climb, resolve_new, safe_path,
}
use agentic_file_transfer.Server.Dotless.{IsDown, join-IsDown}

pair_inj : {A B : Type 0} {a c : A} {b d : B} → Path (A × B) (a, b) (c, d) → (a ≡ c) × (b ≡ d)
pair_inj e = (ap (λ p. p.0) e, ap (λ p. p.1) e)

All-behind : (xs ys : Components) → All IsDown (xs ++ ys) → All IsDown ys
All-behind [] ys a = a
All-behind (x ∷ xs) ys a = All-behind xs ys a.1

backwards-append : (xs done : Components) → backwards xs done ≡ backwards xs [] ++ done
backwards-append [] done = refl
backwards-append (x ∷ xs) done =
    backwards-append xs (x ∷ done)
    ∙ (sym (append_assoc (backwards xs []) (x ∷ []) done)
        ∙ ap (λ t. t ++ done) (sym (backwards-append xs (x ∷ []))))

backwards_twice :
    (xs done : Components) → backwards (backwards xs done) [] ≡ backwards done [] ++ xs
backwards_twice [] done = sym (append-nil (backwards done []))
backwards_twice (x ∷ xs) done =
    backwards_twice xs (x ∷ done)
    ∙ (ap (λ t. t ++ xs) (backwards-append done (x ∷ []))
        ∙ append_assoc (backwards done []) (x ∷ []) xs)

module _ (fs : FileTree) (root : Components) where
  climb-returned :
      (up trailing anc behind : Components)
      → climb fs root up trailing ≡ ok (anc, behind)
      → (fs.is_there anc ≡ true) × (backwards up trailing ≡ anc ++ behind)
  unfolding climb
  climb-returned [] trailing anc behind e = elim (if-cases (fs.is_there []) e) [
    | inl (there, done) ↦
        let (same, rest) = pair_inj (ok_inj done) in
        (ap fs.is_there (sym same) ∙ there, rest ∙ ap (λ t. t ++ behind) same)
    | inr (gone, failed) ↦ cc failed
  ]
  climb-returned (name ∷ parents) trailing anc behind e =
      elim (if-cases (fs.is_there (backwards (name ∷ parents) [])) e) [
        | inl (there, done) ↦
            let (same, rest) = pair_inj (ok_inj done) in
            (
              ap fs.is_there (sym same) ∙ there,
              backwards-append (name ∷ parents) trailing
                  ∙ (ap (λ t. t ++ trailing) same ∙ ap (λ t. anc ++ t) rest),
            )
        | inr (gone, further) ↦ climb-returned parents (name ∷ trailing) anc behind further
      ]

  canonical_below-returned :
      (p canonical : Components)
      → canonical_below fs root p ≡ ok canonical
      → (fs.canonicalize p ≡ ok canonical) × (is_below root canonical ≡ true)
  unfolding canonical_below
  canonical_below-returned p canonical e =
      let check = λ (q : Components).
        raise_if (not (is_below root q)) (AftError.permission_denied outside_root) in
      let (q, found, later) = >>=-eq-ok (fs.canonicalize p) (λ q. check q >> ok q) e in
      let (u, checked, done) = >>=-eq-ok (check q) (λ x. ok q) later in
      let same : q ≡ canonical = ok_inj done in
      let inside = not_false (is_below root q) (
        raise_if-eq-ok (not (is_below root q)) (AftError.permission_denied outside_root) u
          checked) in
      (found ∙ ap ok same, ap (is_below root) (sym same) ∙ inside)
    where
      not_false : (b : Bool) → not b ≡ false → b ≡ true
      not_false true h = refl
      not_false false h = cc h

  -- Where a path leads that `safe_path` hands out.
  abbrev pub Encloses : Components → Components → Type 0
  Encloses path resolved =
      (anc : Components) × (behind : Components) × (canonical : Components) × (path ≡ anc ++ behind)
      × (fs.canonicalize anc ≡ ok canonical)
      × (is_below root canonical ≡ true)
      × (resolved ≡ canonical ++ behind)
      × All IsDown behind

  resolve_new-Encloses :
      (path resolved : Components)
      → All IsDown path
      → resolve_new fs root path ≡ ok resolved
      → Encloses path resolved
  unfolding resolve_new
  resolve_new-Encloses path resolved down e =
      let finish = λ (canonical trailing : Components). ok (canonical ++ trailing) in
      let (r, climbed, later) =
        >>=-eq-ok (climb fs root (backwards path []) [])
          (λ r. canonical_below fs root r.0 >>= λ canonical. finish canonical r.1) e in
      let (canonical, found, done) =
        >>=-eq-ok (canonical_below fs root r.0) (λ canonical. finish canonical r.1) later in
      let (there, parts) = climb-returned (backwards path []) [] r.0 r.1 climbed in
      let (leads, inside) = canonical_below-returned r.0 canonical found in
      let whole : path ≡ r.0 ++ r.1 = sym (backwards_twice path []) ∙ parts in
      (
        r.0,
        r.1,
        canonical,
        whole,
        leads,
        inside,
        sym (ok_inj done),
        All-behind r.0 r.1 (subst (All IsDown) whole down),
      )

  -- Whatever a client asks for, a path that safe_path hands out is a canonical path that lies below
  -- the root and is where an ancestor of the path asked for leads to, or that path itself, followed
  -- by the names behind the ancestor, none of which is `..`, if no component of the root is.
  pub safe_path-Encloses :
      (requested : List ℕ) (resolved : Components)
      → All IsDown root
      → safe_path fs root requested ≡ ok resolved
      → Encloses (join root (replace_backslashes (trim_slashes requested))) resolved
  unfolding safe_path
  safe_path-Encloses requested resolved down e =
      let path = join root (replace_backslashes (trim_slashes requested)) in
      elim (if-cases (has_dots requested) e) [
        | inl (dots, failed) ↦ cc failed
        | inr (clean, further) ↦ elim (if-cases (fs.is_there path) further) [
          | inl (there, found) ↦
              let (leads, inside) = canonical_below-returned path resolved found in
              (
                path,
                [],
                resolved,
                sym (append-nil path),
                leads,
                inside,
                sym (append-nil resolved),
                tt,
              )
          | inr (fresh, made) ↦
              resolve_new-Encloses path resolved (join-IsDown root requested down clean) made
        ]
      ]
