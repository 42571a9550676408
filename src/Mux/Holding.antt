-- ===== src/Mux/Holding.antt =====
-- Proofs on the stream that is open on a channel, src/aftp/mux.rs.
use agentic_file_transfer.Base.{
  true≢false, some_inj, ℕ, ◌<◌, ◌≡◌, refl, sym, subst, ap, none≢some, ◌∙◌, ◌⊎◌, inl, inr, List, [],
  ◌∷◌, ◌++◌, true, false, Option, some, none, arith, ◌==◌, ==_refl, ==_iff, if◌then◌else◌, ok,
  append-nil, Bool-cases, Option-cases,
}
use agentic_file_transfer.Base.Table.{lookup, insert, nat_eq, lookup-insert, lookup-remove}
use agentic_file_transfer.Mux.Channels.{
  MuxFrame, Streams, register, unlink, send, route, taken_from, recv_frame, drop_stream,
}
use agentic_file_transfer.Mux.Link.{Call, sends, shuts, on_stream}
use agentic_file_transfer.Mux.Routing.{answer}

-- The stream is open on the channel, no other one is, and the channel's queue is `queue`.
pub record Holds (stream_id channel : ℕ) (queue : List MuxFrame) (s : Streams) : Type 0 where
  pub bound : lookup stream_id s.senders ≡ some channel
  pub sole : (i : ℕ) → lookup i s.senders ≡ some channel → (i == stream_id) ≡ true
  pub older : channel < s.next_channel
  pub queued : lookup channel s.queues ≡ some queue

-- Channels are numbered one after the other.
abbrev pub IsNumbered : Streams → Type 0
IsNumbered s = (i c : ℕ) → lookup i s.senders ≡ some c → c < s.next_channel

pub register-Holds_new :
    (i : ℕ) (s : Streams) → IsNumbered s → Holds i s.next_channel [] (register i s)
unfolding register
register-Holds_new i s num = record {
  bound = lookup-insert i i s.next_channel s.senders ∙ rw (==_refl i) refl;
  sole = λ j h. ground (arith, lookup-insert j i s.next_channel s.senders, num j s.next_channel);
  older = omega arith;
  queued =
      lookup-insert s.next_channel s.next_channel [] s.queues ∙ rw (==_refl s.next_channel) refl;
}

pub route_bound :
    (i c : ℕ) (f : MuxFrame) (s : Streams) → lookup i s.senders ≡ some c → route i f s ≡ send c f s
unfolding route
route_bound i c f s h = rw (h, route) refl

pub route_free :
    (i : ℕ) (f : MuxFrame) (s : Streams) → lookup i s.senders ≡ none → route i f s ≡ some s
unfolding route
route_free i f s h = rw (h, route) refl

pub send-cases :
    (c : ℕ) (f : MuxFrame) (s t : Streams)
    → send c f s ≡ some t
    → ((lookup c s.queues ≡ none) × (t ≡ s))
      ⊎ ((p : List MuxFrame) × (lookup c s.queues ≡ some p)
          × (t ≡ record s { queues = insert c (p ++ (f ∷ [])) s.queues }))
unfolding send
send-cases c f s t e = elim (Option-cases (lookup c s.queues)) [
  | inl gone ↦ inl (gone, ground arith)
  | inr (p, there) ↦ inr (p, there, ground arith)
]

pub recv_frame-cases :
    (c : ℕ) (f : MuxFrame) (s t : Streams)
    → recv_frame c s ≡ some (ok (f, t))
    → (rest : List MuxFrame) × (lookup c s.queues ≡ some (f ∷ rest))
      × (t ≡ record s { queues = insert c rest s.queues })
unfolding recv_frame taken_from
recv_frame-cases c f s t e = go (lookup c s.queues) refl e
  where
    go :
        (o : Option (List MuxFrame))
        → lookup c s.queues ≡ o
        → taken_from c s o ≡ some (ok (f, t))
        → (rest : List MuxFrame) × (lookup c s.queues ≡ some (f ∷ rest))
          × (t ≡ record s { queues = insert c rest s.queues })
    go none o e = cc e
    go (some []) o e = absurd (ground arith)
    go (some (g ∷ rest)) o e =
        let same : g ≡ f = cc e in (rest, o ∙ ap (λ x. some (x ∷ rest)) same, cc e)

-- The call does not close the stream.
abbrev pub StaysOpen : ℕ → Call → Type 0
StaysOpen stream_id (sends i t p) = Unit
StaysOpen stream_id (shuts i) = (i == stream_id) ≡ false

module _ (sid ch : ℕ) (q : List MuxFrame) (s : Streams) (h : Holds sid ch q s) where
  pub register-Holds : (i : ℕ) → (i == sid) ≡ false → Holds sid ch q (register i s)
  unfolding register
  register-Holds i ne = record {
    bound = ground (arith, lookup-insert sid i s.next_channel s.senders, h.bound);
    sole = λ j e. ground (arith, lookup-insert j i s.next_channel s.senders, h.sole j, h.older);
    older = omega (arith, h.older);
    queued = ground (arith, lookup-insert ch s.next_channel [] s.queues, h.queued, h.older);
  }

  pub unlink-Holds : (i : ℕ) → (i == sid) ≡ false → Holds sid ch q (unlink i s)
  unfolding unlink
  unlink-Holds i ne = record {
    bound = ground (arith, lookup-remove sid i s.senders, h.bound);
    sole = λ j e. ground (arith, lookup-remove j i s.senders, h.sole j);
    older = h.older;
    queued = h.queued;
  }

  pub drop_stream-Holds : (c : ℕ) → (c == ch) ≡ false → Holds sid ch q (drop_stream c s)
  unfolding drop_stream
  drop_stream-Holds c ne = record {
    bound = h.bound;
    sole = h.sole;
    older = h.older;
    queued = ground (arith, lookup-remove ch c s.queues, h.queued);
  }

  -- Another queue is replaced.
  replace_other :
      (c : ℕ) (p : List MuxFrame)
      → (c == ch) ≡ false
      → Holds sid ch q (record s { queues = insert c p s.queues })
  replace_other c p ne = record {
    bound = h.bound;
    sole = h.sole;
    older = h.older;
    queued = ground (arith, lookup-insert ch c p s.queues, h.queued);
  }

  replace_own : (p : List MuxFrame) → Holds sid ch p (record s { queues = insert ch p s.queues })
  replace_own p = record {
    bound = h.bound;
    sole = h.sole;
    older = h.older;
    queued = ground (arith, lookup-insert ch ch p s.queues);
  }

  pub send-Holds :
      (c : ℕ) (f : MuxFrame) (t : Streams)
      → (c == ch) ≡ false
      → send c f s ≡ some t
      → Holds sid ch q t
  unfolding send
  send-Holds c f t ne e = elim (send-cases c f s t e) [
    | inl (gone, same) ↦ subst (λ u. Holds sid ch q u) (sym same) h
    | inr (p, there, grown) ↦
        subst (λ u. Holds sid ch q u) (sym grown) (replace_other c (p ++ (f ∷ [])) ne)
  ]

  pub send-Holds_own :
      (f : MuxFrame) (t : Streams) → send ch f s ≡ some t → Holds sid ch (q ++ (f ∷ [])) t
  unfolding send
  send-Holds_own f t e = elim (send-cases ch f s t e) [
    | inl (gone, same) ↦ none≢some (sym gone ∙ h.queued)
    | inr (p, there, grown) ↦
        let own : p ≡ q = some_inj (sym there ∙ h.queued) in
        subst (λ u. Holds sid ch (q ++ (f ∷ [])) u) (sym grown)
          (subst
            (λ r.
              Holds sid ch (q ++ (f ∷ []))
                (record s { queues = insert ch (r ++ (f ∷ [])) s.queues }))
            (sym own) (replace_own (q ++ (f ∷ []))))
  ]

  other_channel : (i c : ℕ) → (i == sid) ≡ false → lookup i s.senders ≡ some c → (c == ch) ≡ false
  other_channel i c ne there = elim (Bool-cases (c == ch)) [
    | inl same ↦
        let here : c ≡ ch = (==_iff c ch).0 same in
        absurd (true≢false (sym (h.sole i (there ∙ ap some here)) ∙ ne))
    | inr other ↦ other
  ]

  route_other :
      (i : ℕ) (f : MuxFrame) (t : Streams)
      → (i == sid) ≡ false
      → route i f s ≡ some t
      → Holds sid ch q t
  route_other i f t ne e = elim (Option-cases (lookup i s.senders)) [
    | inl gone ↦ subst (λ u. Holds sid ch q u) (some_inj (sym (route_free i f s gone) ∙ e)) h
    | inr (c, there) ↦
        send-Holds c f t (other_channel i c ne there) (sym (route_bound i c f s there) ∙ e)
  ]

  -- What the reader does for a call of the peer adds the call's frame to the queue, if it is on this
  -- stream.
  pub answer-Holds :
      (c : Call) (t : Streams)
      → StaysOpen sid c
      → answer c s ≡ some t
      → Holds sid ch (q ++ on_stream sid c) t
  answer-Holds (shuts i) t ne e =
      subst (λ u. Holds sid ch (q ++ []) u) (some_inj e)
        (subst (λ r. Holds sid ch r (unlink i s)) (sym (append-nil q)) (unlink-Holds i ne))
  answer-Holds (sends i y p) t u e =
      let f : MuxFrame = record { frame_type = y; flags = 0; payload = p } in
      elim (Bool-cases (i == sid)) [
        | inl same ↦
            let here : i ≡ sid = (==_iff i sid).0 same in
            let its : send ch f s ≡ some t =
              sym (route_bound sid ch f s h.bound) ∙ (ap (λ j. route j f s) (sym here) ∙ e) in
            rw same (send-Holds_own f t its)
        | inr other ↦ rw (other, append-nil q) (route_other i f t other e)
      ]

  pub recv_frame-Holds :
      (c : ℕ) (f : MuxFrame) (t : Streams)
      → recv_frame c s ≡ some (ok (f, t))
      → (rest : List MuxFrame) × (q ≡ (if c == ch then f ∷ [] else []) ++ rest)
        × Holds sid ch rest t
  recv_frame-Holds c f t e =
      let (p, there, left) = recv_frame-cases c f s t e in
      elim (Bool-cases (c == ch)) [
        | inl same ↦
            let here : c ≡ ch = (==_iff c ch).0 same in
            let own : q ≡ f ∷ p =
              some_inj (sym h.queued ∙ (ap (λ n. lookup n s.queues) (sym here) ∙ there)) in
            rw same (
              p,
              own,
              subst (λ u. Holds sid ch p u) (sym left)
                  (subst (λ n. Holds sid ch p (record s { queues = insert n p s.queues }))
                    (sym here) (replace_own p)),
            )
        | inr other ↦
            rw other (q, refl, subst (λ u. Holds sid ch q u) (sym left) (replace_other c p other))
      ]
