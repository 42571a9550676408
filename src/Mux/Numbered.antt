-- ===== src/Mux/Numbered.antt =====
-- Proofs on the numbers of the channels, src/aftp/mux.rs.
use agentic_file_transfer.Base.{
  some_inj, ℕ, true, false, ◌≡◌, refl, sym, subst, ◌∙◌, inl, inr, List, some, arith, ◌==◌, ok, err,
  AftError, Option-cases, Result-cases, Bool-cases,
}
use agentic_file_transfer.Base.Table.{lookup, nat_eq, lookup-insert, lookup-remove}
use agentic_file_transfer.Frame.Types.{Frame}
use agentic_file_transfer.Frame.Payload.Streams.{
  StreamDataPayload, parse_stream_data, parse_stream_close,
}
use agentic_file_transfer.Frame.Constants.{frame_stream_data, frame_stream_close}
use agentic_file_transfer.Mux.Channels.{
  MuxFrame, Streams, register, unlink, send, route, drop_stream,
}
use agentic_file_transfer.Mux.Session.{open_stream, close_stream, on_data, on_close, demux}
use agentic_file_transfer.Mux.Link.{
  Link, Label, Step, say, take, open_one, close_one, drop_one, receive, Run, here, next,
  open_source,
}
use agentic_file_transfer.Mux.Ending.{reader_turn-went}
use agentic_file_transfer.Mux.Holding.{
  IsNumbered, send-cases, recv_frame-cases, route_bound, route_free,
}

register-IsNumbered : (i : ℕ) (s : Streams) → IsNumbered s → IsNumbered (register i s)
unfolding register
register-IsNumbered i s h j c e = ground (arith, lookup-insert j i s.next_channel s.senders, h j c)

unlink-IsNumbered : (i : ℕ) (s : Streams) → IsNumbered s → IsNumbered (unlink i s)
unfolding unlink
unlink-IsNumbered i s h j c e = ground (arith, lookup-remove j i s.senders, h j c)

send-IsNumbered :
    (c : ℕ) (f : MuxFrame) (s t : Streams) → send c f s ≡ some t → IsNumbered s → IsNumbered t
send-IsNumbered c f s t e h = elim (send-cases c f s t e) [
  | inl (gone, same) ↦ subst IsNumbered (sym same) h
  | inr (p, there, grown) ↦ subst IsNumbered (sym grown) h
]

route-IsNumbered :
    (i : ℕ) (f : MuxFrame) (s t : Streams) → route i f s ≡ some t → IsNumbered s → IsNumbered t
route-IsNumbered i f s t e h = elim (Option-cases (lookup i s.senders)) [
  | inl gone ↦ subst IsNumbered (some_inj (sym (route_free i f s gone) ∙ e)) h
  | inr (c, there) ↦ send-IsNumbered c f s t (sym (route_bound i c f s there) ∙ e) h
]

abbrev frame_for : Frame → StreamDataPayload → MuxFrame
frame_for f sd = record { frame_type = sd.inner_frame_type; flags = f.flags; payload = sd.bytes }

on_data_parsed :
    (f : Frame) (s : Streams) (sd : StreamDataPayload)
    → parse_stream_data f.payload ≡ ok sd
    → on_data f s ≡ route sd.stream_id (frame_for f sd) s
unfolding on_data
on_data_parsed f s sd h = rw (h, on_data) refl

on_data_ignored :
    (f : Frame) (s : Streams) (failure : AftError)
    → parse_stream_data f.payload ≡ err failure
    → on_data f s ≡ some s
unfolding on_data
on_data_ignored f s failure h = rw (h, on_data) refl

on_data-IsNumbered :
    (f : Frame) (s t : Streams) → on_data f s ≡ some t → IsNumbered s → IsNumbered t
on_data-IsNumbered f s t e h = elim (Result-cases (parse_stream_data f.payload)) [
  | inl (sd, parsed) ↦
      route-IsNumbered sd.stream_id (frame_for f sd) s t (sym (on_data_parsed f s sd parsed) ∙ e) h
  | inr (failure, parsed) ↦
      subst IsNumbered (some_inj (sym (on_data_ignored f s failure parsed) ∙ e)) h
]

on_close-IsNumbered : (f : Frame) (s : Streams) → IsNumbered s → IsNumbered (on_close f s)
unfolding on_close
on_close-IsNumbered f s h = elim (Result-cases (parse_stream_close f.payload)) [
  | inl (sc, parsed) ↦ rw (parsed, on_close) (unlink-IsNumbered sc.stream_id s h)
  | inr (failure, parsed) ↦ rw (parsed, on_close) h
]

demux_data :
    (f : Frame) (s : Streams) → (f.frame_type == frame_stream_data) ≡ true → demux f s ≡ on_data f s
unfolding demux
demux_data f s h = rw (h, demux) refl

demux_close :
    (f : Frame) (s : Streams)
    → (f.frame_type == frame_stream_data) ≡ false
    → (f.frame_type == frame_stream_close) ≡ true
    → demux f s ≡ some (on_close f s)
unfolding demux
demux_close f s h k = rw (h, k, demux) refl

abbrev unchanged : Frame → MuxFrame
unchanged f = record { frame_type = f.frame_type; flags = f.flags; payload = f.payload }

demux_other :
    (f : Frame) (s : Streams)
    → (f.frame_type == frame_stream_data) ≡ false
    → (f.frame_type == frame_stream_close) ≡ false
    → demux f s ≡ route 0 (unchanged f) s
unfolding demux
demux_other f s h k = rw (h, k, demux) refl

demux-IsNumbered : (f : Frame) (s t : Streams) → demux f s ≡ some t → IsNumbered s → IsNumbered t
demux-IsNumbered f s t e h = elim (Bool-cases (f.frame_type == frame_stream_data)) [
  | inl is_data ↦ on_data-IsNumbered f s t (sym (demux_data f s is_data) ∙ e) h
  | inr no_data ↦ elim (Bool-cases (f.frame_type == frame_stream_close)) [
    | inl is_close ↦
        let closed : on_close f s ≡ t = some_inj (sym (demux_close f s no_data is_close) ∙ e) in
        subst IsNumbered closed (on_close-IsNumbered f s h)
    | inr no_close ↦
        route-IsNumbered 0 (unchanged f) s t (sym (demux_other f s no_data no_close) ∙ e) h
  ]
]

Step-IsNumbered :
    {a b : Link} {l : Label}
    → IsNumbered a.session.streams
    → Step a b l
    → IsNumbered b.session.streams
unfolding open_stream close_stream drop_stream
Step-IsNumbered h (say c f e) = subst (λ x. IsNumbered x.session.streams) (sym e) h
Step-IsNumbered {a} h (take rest t r e) =
    let (f, took, routed) =
      reader_turn-went (open_source a.wire) (open_source rest) a.session.max_frame_size
        a.session.streams t r in
    subst (λ x. IsNumbered x.session.streams) (sym e)
      (demux-IsNumbered f a.session.streams t routed h)
Step-IsNumbered {a} h (open_one e) =
    subst (λ x. IsNumbered x.session.streams) (sym e)
      (register-IsNumbered a.session.next_stream_id a.session.streams h)
Step-IsNumbered {a} h (close_one i e) =
    subst (λ x. IsNumbered x.session.streams) (sym e) (unlink-IsNumbered i a.session.streams h)
Step-IsNumbered h (drop_one c e) = subst (λ x. IsNumbered x.session.streams) (sym e) h
Step-IsNumbered {a} h (receive c f t r e) =
    let (rest, there, left) = recv_frame-cases c f a.session.streams t r in
    subst (λ x. IsNumbered x.session.streams) (sym e) (subst IsNumbered (sym left) h)

-- Whatever happens on a connection, the channels that a session's streams are bound to have been
-- numbered already, if they were at its start, as they are in a new session.
pub Run-IsNumbered :
    {a b : Link} {ls : List Label}
    → IsNumbered a.session.streams
    → Run a ls b
    → IsNumbered b.session.streams
Run-IsNumbered h here = h
Run-IsNumbered h (next run step) = Step-IsNumbered (Run-IsNumbered h run) step
