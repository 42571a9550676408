-- ===== src/Mux/Ids.antt =====
-- Proofs on the stream ids that src/aftp/mux.rs gives out.
use agentic_file_transfer.Base.{
  ℕ, suc, ◌+◌, ◌*◌, ◌%◌, ◌^◌, ◌≤◌, ◌<◌, ◌≡◌, ◌↔◌, ap, ◌∙◌, List, [], ◌∷◌, arith,
}
use agentic_file_transfer.Mux.Session.{open_stream, close_stream}
use agentic_file_transfer.Mux.Link.{
  Link, Label, Step, say, take, open_one, close_one, drop_one, receive, Run, here, next,
}

-- How many streams the session opened in a run.
abbrev pub openings : List Label → ℕ
openings [] = 0
openings (Label.opened ∷ ls) = suc (openings ls)
openings (_ ∷ ls) = openings ls

Step-next_id :
    (a b : Link) (n : ℕ) (ls : List Label) {l : Label}
    → a.session.next_stream_id ≡ (n + 2 * openings ls) % 2 ^ 16
    → Step a b l
    → b.session.next_stream_id ≡ (n + 2 * openings (l ∷ ls)) % 2 ^ 16
unfolding open_stream close_stream
Step-next_id a b n ls h (say c f e) = ap (λ x. x.session.next_stream_id) e ∙ h
Step-next_id a b n ls h (take rest t r e) = ap (λ x. x.session.next_stream_id) e ∙ h
Step-next_id a b n ls h (open_one e) = ap (λ x. x.session.next_stream_id) e ∙ omega (arith, h)
Step-next_id a b n ls h (close_one i e) = ap (λ x. x.session.next_stream_id) e ∙ h
Step-next_id a b n ls h (drop_one c e) = ap (λ x. x.session.next_stream_id) e ∙ h
Step-next_id a b n ls h (receive c f t r e) = ap (λ x. x.session.next_stream_id) e ∙ h

Run-next_id :
    {a b : Link} {ls : List Label}
    → a.session.next_stream_id < 2 ^ 16
    → Run a ls b
    → b.session.next_stream_id ≡ (a.session.next_stream_id + 2 * openings ls) % 2 ^ 16
Run-next_id h here = omega (arith, h)
Run-next_id {a} h (next {b = b} {ls = ls} run step) =
    Step-next_id _ _ a.session.next_stream_id ls (Run-next_id h run) step

-- Over any run from a session whose next id has 16 bits, in which between 1 and 2^15 streams are
-- opened, whatever else happens: the next id is as odd or even as it was, and is the id that was
-- next before exactly if 2^15 were opened.
pub next_stream_id_again :
    (a b : Link) (ls : List Label)
    → a.session.next_stream_id < 2 ^ 16
    → openings ls ≤ 2 ^ 15
    → 0 < openings ls
    → Run a ls b
    → (b.session.next_stream_id % 2 ≡ a.session.next_stream_id % 2)
      × ((b.session.next_stream_id ≡ a.session.next_stream_id) ↔ (openings ls ≡ 2 ^ 15))
next_stream_id_again a b ls h few some_new run =
    let e = Run-next_id h run in
    (omega (arith, e, h), (λ same. omega (arith, e, h), λ full. omega (arith, e, h)))
