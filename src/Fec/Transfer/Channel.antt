-- ===== src/Fec/Transfer/Channel.antt =====
-- The channel of feedback of src/aftp/fec/transfer.rs, tokio's bounded `mpsc`: what its far side does
-- is a parameter.
use agentic_file_transfer.Base.{List, [], ◌∷◌, ◌++◌, Bool, true, false, ◌≡◌, refl, if◌then◌else◌}
use agentic_file_transfer.Fec.Transfer.Blocks.{Feedback}

-- `takes` tells whether the channel takes one more message, at once or later, when these were handed
-- to it: it has room, the far side makes room, or the far side is gone, which the source ignores.
-- Where it does not, the task that sends waits for ever.
pub record Channel : Type 0 where
  pub takes : List Feedback → Bool
  pub sent : List Feedback
  pub stalled : Bool

abbrev pub new_channel : (List Feedback → Bool) → Channel
new_channel takes = record { takes = takes; sent = []; stalled = false }

-- `feedback.send(..).await`
unfoldable pub send_feedback : Feedback → Channel → Channel
send_feedback m c =
    if c.takes c.sent then record c { sent = c.sent ++ (m ∷ []) } else record c { stalled = true }

-- The awaited sends of a loop. One that waits for ever is the last.
unfoldable pub send_each : List Feedback → Channel → Channel
send_each [] c = c
send_each (m ∷ ms) c =
    if c.takes c.sent
    then send_each ms (record c { sent = c.sent ++ (m ∷ []) })
    else record c { stalled = true }

-- The channel takes every message sooner or later, and no send waits for ever.
pub record IsFlowing (c : Channel) : Type 0 where
  pub takes_all : (ms : List Feedback) → c.takes ms ≡ true
  pub moving : c.stalled ≡ false

pub send_feedback-IsFlowing :
    (m : Feedback) (c : Channel) → IsFlowing c → IsFlowing (send_feedback m c)
unfolding send_feedback
send_feedback-IsFlowing m c h =
    rw (h.takes_all c.sent) (record { takes_all = h.takes_all; moving = h.moving })

pub send_each-IsFlowing :
    (ms : List Feedback) (c : Channel) → IsFlowing c → IsFlowing (send_each ms c)
unfolding send_each
send_each-IsFlowing [] c h = h
send_each-IsFlowing (m ∷ ms) c h = rw (h.takes_all c.sent) (
    send_each-IsFlowing ms (record c { sent = c.sent ++ (m ∷ []) })
      (record { takes_all = h.takes_all; moving = h.moving }))

pub new_channel-IsFlowing :
    (takes : List Feedback → Bool)
    → ((ms : List Feedback) → takes ms ≡ true)
    → IsFlowing (new_channel takes)
new_channel-IsFlowing takes h = record { takes_all = h; moving = refl }
