-- ===== src/Mux/Fifo.antt =====
-- Proofs on what arrives on a stream, src/aftp/mux.rs.
use agentic_file_transfer.Base.{ℕ, ◌≡◌, refl, sym, subst, List, [], ◌∷◌, ◌++◌, some, All}
use agentic_file_transfer.Base.Table.{lookup, nat_eq}
use agentic_file_transfer.Mux.Channels.{MuxFrame, drop_stream}
use agentic_file_transfer.Mux.Session.{open_stream, close_stream}
use agentic_file_transfer.Mux.Link.{
  Call, sends, shuts, Fits, Link, Label, Step, say, take, open_one, close_one, drop_one, receive,
  Run, here, next, all_on_stream, frames_sent, frames_received, Keeps, RunKeeps, wire_of,
  with_streams,
}
use agentic_file_transfer.Mux.Holding.{
  IsNumbered, StaysOpen, register-Holds_new, register-Holds, unlink-Holds, drop_stream-Holds,
}
use agentic_file_transfer.Mux.Carrying.{
  Carries, say-Carries, take-Carries, receive-Carries, keep-Carries,
}

says_kept : (sid ch : ℕ) (a : Link) (c : Call) → Keeps sid ch a (Label.said c) → StaysOpen sid c
says_kept sid ch a (sends i t p) u = tt
says_kept sid ch a (shuts i) u = u

Step-Carries :
    (sid ch max : ℕ) (a b : Link) (ls : List Label) {l : Label}
    → Keeps sid ch a l
    → Carries sid ch max (frames_sent sid ls) (frames_received ch ls) a
    → Step a b l
    → Carries sid ch max (frames_sent sid (l ∷ ls)) (frames_received ch (l ∷ ls)) b
unfolding open_stream close_stream
Step-Carries sid ch max a b ls u k (say c f e) =
    subst (λ x. Carries sid ch max (frames_sent sid (Label.said c ∷ ls)) (frames_received ch ls) x)
      (sym e) (say-Carries sid ch max _ _ a c f (says_kept sid ch a c u) k)
Step-Carries sid ch max a b ls u k (take rest t r e) =
    subst (λ x. Carries sid ch max (frames_sent sid ls) (frames_received ch ls) x) (sym e)
      (take-Carries sid ch max _ _ a rest t r k)
Step-Carries sid ch max a b ls u k (open_one e) =
    subst (λ x. Carries sid ch max (frames_sent sid ls) (frames_received ch ls) x) (sym e)
      (keep-Carries sid ch max _ _ a (open_stream a.session).1 refl
        (λ q h. register-Holds sid ch q a.session.streams h a.session.next_stream_id u) k)
Step-Carries sid ch max a b ls u k (close_one i e) =
    subst (λ x. Carries sid ch max (frames_sent sid ls) (frames_received ch ls) x) (sym e)
      (keep-Carries sid ch max _ _ a (close_stream a.session i) refl
        (λ q h. unlink-Holds sid ch q a.session.streams h i u) k)
Step-Carries sid ch max a b ls u k (drop_one c e) =
    subst (λ x. Carries sid ch max (frames_sent sid ls) (frames_received ch ls) x) (sym e)
      (keep-Carries sid ch max _ _ a (with_streams a.session (drop_stream c a.session.streams)) refl
        (λ q h. drop_stream-Holds sid ch q a.session.streams h c u) k)
Step-Carries sid ch max a b ls u k (receive c f t r e) =
    subst
      (λ x.
        Carries sid ch max (frames_sent sid ls) (frames_received ch (Label.received c f ∷ ls)) x)
      (sym e) (receive-Carries sid ch max _ _ a c f t r k)

start-Carries :
    (a : Link) (cs : List Call)
    → IsNumbered a.session.streams
    → All (Fits a.session.max_frame_size) cs
    → All (StaysOpen a.session.next_stream_id) cs
    → all_on_stream a.session.next_stream_id cs ≡ []
    → a.wire ≡ wire_of cs
    → Carries a.session.next_stream_id a.session.streams.next_channel a.session.max_frame_size [] []
        (record a { session = (open_stream a.session).1 })
unfolding open_stream
start-Carries a cs num fit keep none_yet w = record {
  same_max = refl;
  queue = [];
  holds = register-Holds_new a.session.next_stream_id a.session.streams num;
  pending = cs;
  fit = fit;
  open_still = keep;
  unread = w;
  order = sym none_yet;
}

Run-Carries :
    (sid ch max : ℕ) {a b : Link} {ls : List Label}
    → Carries sid ch max [] [] a
    → (run : Run a ls b) → RunKeeps sid ch run
    → Carries sid ch max (frames_sent sid ls) (frames_received ch ls) b
Run-Carries sid ch max k here u = k
Run-Carries sid ch max k (next run step) u =
    Step-Carries sid ch max _ _ _ u.1 (Run-Carries sid ch max k run u.0) step

module _ (a b : Link) (earlier : List Call) (ls : List Label) where
  -- From the opening of a stream on, if the channels that were bound before have their numbers, and
  -- the bytes unread at that time are those of calls that fit and neither send on the stream nor
  -- close it: as long as neither side closes it, nobody drops it and its id is not given out again,
  -- whatever the other calls of both sides are and however they are interleaved, the frames that
  -- the peer has sent on the stream are, in the order of sending, the ones that its receiver has
  -- got, the ones in its queue, and the ones in the calls of the peer that the reader has not read.
  pub stream_fifo :
      IsNumbered a.session.streams
      → All (Fits a.session.max_frame_size) earlier
      → All (StaysOpen a.session.next_stream_id) earlier
      → all_on_stream a.session.next_stream_id earlier ≡ []
      → a.wire ≡ wire_of earlier
      → (run : Run (record a { session = (open_stream a.session).1 }) ls b)
      → RunKeeps a.session.next_stream_id a.session.streams.next_channel run
      → (queue : List MuxFrame) × (pending : List Call) × (lookup a.session.streams.next_channel
            b.session.streams.queues
          ≡ some queue)
        × (b.wire ≡ wire_of pending)
        × (frames_sent a.session.next_stream_id ls
            ≡ frames_received a.session.streams.next_channel ls
              ++ (queue ++ all_on_stream a.session.next_stream_id pending))
  stream_fifo num fit keep none_yet w run kept =
      let k =
        Run-Carries a.session.next_stream_id a.session.streams.next_channel a.session.max_frame_size
          (start-Carries a earlier num fit keep none_yet w) run kept in
      (k.queue, k.pending, k.holds.queued, k.unread, k.order)
