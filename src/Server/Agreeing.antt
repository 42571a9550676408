-- ===== src/Server/Agreeing.antt =====
-- Proofs on the negotiation of src/aftp/server.rs.
use agentic_file_transfer.Base.{
  and_true, and_false, ℕ, ◌≡◌, refl, sym, ap, ◌∙◌, Bool, true, false, not, ◌&&◌, ◌||◌, arith,
  if◌then◌else◌,
}
use agentic_file_transfer.Frame.Constants.{cap_fec, cap_fec_quic}
use agentic_file_transfer.Server.Negotiation.{
  ServerConfig, has, unset, set, is_some, agree_base, refuses_fec, agree_fec, negotiate,
}

fec-unset_1 : (x : ℕ) → has 64 (unset 1 x) ≡ has 64 x
fec-unset_1 x = ground arith

fec-set_2 : (x : ℕ) → has 64 (set 2 x) ≡ has 64 x
fec-set_2 x = ground arith

fec-set_4 : (x : ℕ) → has 64 (set 4 x) ≡ has 64 x
fec-set_4 x = ground arith

fec-set_16 : (x : ℕ) → has 64 (set 16 x) ≡ has 64 x
fec-set_16 x = ground arith

fec-set_32 : (x : ℕ) → has 64 (set 32 x) ≡ has 64 x
fec-set_32 x = ground arith

quic-unset_1 : (x : ℕ) → has 128 (unset 1 x) ≡ has 128 x
quic-unset_1 x = ground arith

quic-set_2 : (x : ℕ) → has 128 (set 2 x) ≡ has 128 x
quic-set_2 x = ground arith

quic-set_4 : (x : ℕ) → has 128 (set 4 x) ≡ has 128 x
quic-set_4 x = ground arith

quic-set_16 : (x : ℕ) → has 128 (set 16 x) ≡ has 128 x
quic-set_16 x = ground arith

quic-set_32 : (x : ℕ) → has 128 (set 32 x) ≡ has 128 x
quic-set_32 x = ground arith

unset_fec : (x : ℕ) → has 64 (unset 64 x) ≡ false
unset_fec x = ground arith

unset_quic : (x : ℕ) → has 128 (unset 128 x) ≡ false
unset_quic x = ground arith

quic-unset_fec : (x : ℕ) → has 128 (unset 64 x) ≡ has 128 x
quic-unset_fec x = ground arith

fec-unset_quic : (x : ℕ) → has 64 (unset 128 x) ≡ has 64 x
fec-unset_quic x = ground arith

if_either {ℓ} : {A : Type ℓ} {x y z : A} (b : Bool) → x ≡ z → y ≡ z → (if b then x else y) ≡ z
if_either true p q = p
if_either false p q = q

ap_if : (f : ℕ → Bool) (b : Bool) (x y : ℕ) → f (if b then x else y) ≡ (if b then f x else f y)
ap_if f true x y = refl
ap_if f false x y = refl

-- What is agreed before the data plane leaves its two bits as the client sent them.
agree_base-fec :
    (c : ServerConfig) (caps : ℕ)
    → (has 64 (agree_base c caps) ≡ has 64 caps) × (has 128 (agree_base c caps) ≡ has 128 caps)
unfolding agree_base
agree_base-fec c caps =
    let c1 = if c.compression then caps else unset 1 caps in
    let c2 = set 2 c1 in
    let c3 = if c.auth_challenge && is_some c.auth_token then set 4 c2 else c2 in
    (
      fec-set_32 (set 16 c3)
          ∙ (fec-set_16 c3
              ∙ (ap_if (has 64) (c.auth_challenge && is_some c.auth_token) (set 4 c2) c2
                  ∙ (if_either (c.auth_challenge && is_some c.auth_token) (fec-set_4 c2) refl
                      ∙ (fec-set_2 c1
                          ∙ (ap_if (has 64) c.compression caps (unset 1 caps)
                              ∙ if_either c.compression refl (fec-unset_1 caps)))))),
      quic-set_32 (set 16 c3)
          ∙ (quic-set_16 c3
              ∙ (ap_if (has 128) (c.auth_challenge && is_some c.auth_token) (set 4 c2) c2
                  ∙ (if_either (c.auth_challenge && is_some c.auth_token) (quic-set_4 c2) refl
                      ∙ (quic-set_2 c1
                          ∙ (ap_if (has 128) c.compression caps (unset 1 caps)
                              ∙ if_either c.compression refl (quic-unset_1 caps)))))),
    )

-- The two steps of `agree_fec`, by their conditions.
abbrev refusal : Bool → ℕ → ℕ
refusal r x = if r then unset 64 x else x

abbrev quic_step : Bool → ℕ → ℕ
quic_step b x = if not b then unset 128 x else x

refusal-has :
    (r : Bool) (x : ℕ)
    → (has 64 (refusal r x) ≡ (has 64 x && not r)) × (has 128 (refusal r x) ≡ has 128 x)
refusal-has true x = (unset_fec x ∙ sym (and_false (has 64 x)), quic-unset_fec x)
refusal-has false x = (sym (and_true (has 64 x)), refl)

quic_step-has :
    (b : Bool) (x : ℕ)
    → (has 64 (quic_step b x) ≡ has 64 x) × (has 128 (quic_step b x) ≡ (has 128 x && b))
quic_step-has true x = (refl, sym (and_true (has 128 x)))
quic_step-has false x = (fec-unset_quic x, unset_quic x ∙ sym (and_false (has 128 x)))

agree_fec-has :
    (c : ServerConfig) (x : ℕ)
    → (has 64 (agree_fec c x) ≡ (has 64 x && not (refuses_fec c)))
      × (has 128 (agree_fec c x) ≡ (has 128 x && has 64 (agree_fec c x)))
unfolding agree_fec
agree_fec-has c x =
    let y = refusal (refuses_fec c) x in
    let (r1, r2) = refusal-has (refuses_fec c) x in
    let (q1, q2) = quic_step-has (has 64 y) y in
    (q1 ∙ r1, q2 ∙ (ap (λ b. b && has 64 y) r2 ∙ ap (λ b. has 128 x && b) (sym q1)))

serves :
    (fec token allow : Bool)
    → not (if not fec then true else not token && not allow) ≡ (fec && (token || allow))
serves false token allow = refl
serves true true allow = refl
serves true false true = refl
serves true false false = refl

-- The data plane is agreed exactly if the client asked for it, the server serves it, and the server
-- has an auth token, from which the symbols' key is made, or allows cleartext symbols; the plane
-- over QUIC exactly if the client asked for that and the data plane is agreed.
pub negotiate-has :
    (c : ServerConfig) (caps : ℕ)
    → (has cap_fec (negotiate c caps)
        ≡ (has cap_fec caps && (c.fec && (is_some c.auth_token || c.fec_allow_unauthenticated))))
      × (has cap_fec_quic (negotiate c caps)
          ≡ (has cap_fec_quic caps && has cap_fec (negotiate c caps)))
unfolding negotiate
negotiate-has c caps =
    let x = agree_base c caps in
    let (b1, b2) = agree_base-fec c caps in
    let (f1, f2) = agree_fec-has c x in
    (
      f1
          ∙ (ap (λ b. b && not (refuses_fec c)) b1
              ∙ ap (λ b. has 64 caps && b)
                  (serves c.fec (is_some c.auth_token) c.fec_allow_unauthenticated)),
      f2 ∙ ap (λ b. b && has 64 (agree_fec c x)) b2,
    )
