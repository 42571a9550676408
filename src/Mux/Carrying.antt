-- ===== src/Mux/Carrying.antt =====
-- Proofs on the frames of a stream in a single step, src/aftp/mux.rs.
use agentic_file_transfer.Base.{
  ℕ, ◌≡◌, sym, subst, ap, ◌∙◌, List, [], ◌∷◌, ◌++◌, Option, some, none, ◌==◌, if◌then◌else◌, ok,
  append-nil, append_assoc, All, All-append,
}
use agentic_file_transfer.Base.Table.{nat_eq}
use agentic_file_transfer.Mux.Channels.{MuxFrame, Streams, recv_frame}
use agentic_file_transfer.Mux.Session.{MuxSession, Turn, turn_for, reader_turn}
use agentic_file_transfer.Mux.Link.{
  Call, write_call, Fits, Link, on_stream, all_on_stream, wire_of, open_source, with_streams,
}
use agentic_file_transfer.Mux.Routing.{
  answer, reader_turn-write_call, write_call-append, read_nothing,
}
use agentic_file_transfer.Mux.Holding.{Holds, StaysOpen, answer-Holds, recv_frame-Holds}

-- Every frame that was sent on the stream is in one place, in the order of sending: `received`, then
-- the queue of its channel, then the calls whose bytes are unread.
pub record Carries (stream_id channel max : ℕ) (sent received : List MuxFrame) (a : Link)
    : Type 0 where
  pub same_max : a.session.max_frame_size ≡ max
  pub queue : List MuxFrame
  pub holds : Holds stream_id channel queue a.session.streams
  pub pending : List Call
  pub fit : All (Fits max) pending
  pub open_still : All (StaysOpen stream_id) pending
  pub unread : a.wire ≡ wire_of pending
  pub order : sent ≡ received ++ (queue ++ all_on_stream stream_id pending)

wire_of-append :
    (cs : List Call) (c : Call) → wire_of (cs ++ (c ∷ [])) ≡ wire_of cs ++ write_call [] c
wire_of-append [] c = append-nil (write_call [] c)
wire_of-append (d ∷ cs) c =
    ap (λ w. write_call [] d ++ w) (wire_of-append cs c)
    ∙ sym (append_assoc (write_call [] d) (wire_of cs) (write_call [] c))

all_on_stream-append :
    (sid : ℕ) (cs : List Call) (c : Call)
    → all_on_stream sid (cs ++ (c ∷ [])) ≡ all_on_stream sid cs ++ on_stream sid c
all_on_stream-append sid [] c = append-nil (on_stream sid c)
all_on_stream-append sid (d ∷ cs) c =
    ap (λ w. on_stream sid d ++ w) (all_on_stream-append sid cs c)
    ∙ sym (append_assoc (on_stream sid d) (all_on_stream sid cs) (on_stream sid c))

went_inj :
    (o : Option Streams) (w rest : List ℕ) (t : Streams)
    → turn_for o (open_source w) ≡ Turn.went (open_source rest) t
    → (o ≡ some t) × (w ≡ rest)
went_inj none w rest t e = cc e
went_inj (some u) w rest t e = (cc e, ap unread_of e)
  where
    unread_of : Turn → List ℕ
    unread_of (Turn.went r v) = r.bytes
    unread_of _ = w

module _ (sid ch max : ℕ) (sent received : List MuxFrame) (a : Link) where
  pub say-Carries :
      (c : Call)
      → Fits a.session.max_frame_size c
      → StaysOpen sid c
      → Carries sid ch max sent received a
      → Carries sid ch max
          (sent ++ on_stream sid c)
          received
          (record a { wire = write_call a.wire c })
  say-Carries c f u k = record {
    same_max = k.same_max;
    queue = k.queue;
    holds = k.holds;
    pending = k.pending ++ (c ∷ []);
    fit = All-append (Fits max) k.pending (c ∷ []) k.fit (subst (λ m. Fits m c) k.same_max f, tt);
    open_still = All-append (StaysOpen sid) k.pending (c ∷ []) k.open_still (u, tt);
    unread =
        write_call-append a.wire c a.session.max_frame_size f
        ∙ (ap (λ w. w ++ write_call [] c) k.unread ∙ sym (wire_of-append k.pending c));
    order = simp (k.order, all_on_stream-append sid k.pending c, append_assoc);
  }

  pub take-Carries :
      (rest : List ℕ) (t : Streams)
      → reader_turn (open_source a.wire) a.session.max_frame_size a.session.streams
        ≡ Turn.went (open_source rest) t
      → Carries sid ch max sent received a
      → Carries sid ch max sent received
          (record { wire = rest; session = with_streams a.session t })
  take-Carries rest t e k = go k.pending k.fit k.open_still k.unread k.order
    where
      go :
          (cs : List Call)
          → All (Fits max) cs
          → All (StaysOpen sid) cs
          → a.wire ≡ wire_of cs
          → sent ≡ received ++ (k.queue ++ all_on_stream sid cs)
          → Carries sid ch max sent received
              (record { wire = rest; session = with_streams a.session t })
      go [] fit u w o =
          let over : Turn.ended ≡ Turn.went (open_source rest) t =
            sym (read_nothing a.session.max_frame_size a.session.streams)
            ∙ (ap (λ v. reader_turn (open_source v) a.session.max_frame_size a.session.streams)
                  (sym w)
                ∙ e) in
          cc over
      go (c ∷ cs) fit u w o =
          let turned : turn_for (answer c a.session.streams) (open_source (wire_of cs))
              ≡ Turn.went (open_source rest) t =
            sym (
              reader_turn-write_call c (wire_of cs) a.session.max_frame_size a.session.streams
                (subst (λ m. Fits m c) (sym k.same_max) fit.0))
            ∙ (ap (λ v. reader_turn (open_source v) a.session.max_frame_size a.session.streams)
                  (sym w)
                ∙ e) in
          let (answered, left) = went_inj (answer c a.session.streams) (wire_of cs) rest t turned in
          record {
            same_max = k.same_max;
            queue = k.queue ++ on_stream sid c;
            holds = answer-Holds sid ch k.queue a.session.streams k.holds c t u.0 answered;
            pending = cs;
            fit = fit.1;
            open_still = u.1;
            unread = sym left;
            order =
                o
                ∙ ap (λ v. received ++ v)
                    (sym (append_assoc k.queue (on_stream sid c) (all_on_stream sid cs)));
          }

  pub receive-Carries :
      (c : ℕ) (f : MuxFrame) (t : Streams)
      → recv_frame c a.session.streams ≡ some (ok (f, t))
      → Carries sid ch max sent received a
      → Carries sid ch max sent
          (received ++ (if c == ch then f ∷ [] else []))
          (record a { session = with_streams a.session t })
  receive-Carries c f t e k =
      let (rest, front, h) = recv_frame-Holds sid ch k.queue a.session.streams k.holds c f t e in
      record {
        same_max = k.same_max;
        queue = rest;
        holds = h;
        pending = k.pending;
        fit = k.fit;
        open_still = k.open_still;
        unread = k.unread;
        order =
            k.order
            ∙ (ap (λ v. received ++ (v ++ all_on_stream sid k.pending)) front ∙ simp append_assoc);
      }

  -- A step that changes neither what is unread nor what is queued for the stream.
  pub keep-Carries :
      (s : MuxSession)
      → s.max_frame_size ≡ a.session.max_frame_size
      → ((q : List MuxFrame) → Holds sid ch q a.session.streams → Holds sid ch q s.streams)
      → Carries sid ch max sent received a
      → Carries sid ch max sent received (record a { session = s })
  keep-Carries s m h k = record {
    same_max = m ∙ k.same_max;
    queue = k.queue;
    holds = h k.queue k.holds;
    pending = k.pending;
    fit = k.fit;
    open_still = k.open_still;
    unread = k.unread;
    order = k.order;
  }
