-- ===== src/Handlers/Refusals/Transfer.antt =====
-- What a request to dsp_xfer that is answered with an error leaves of the two slot tables.
use dsp_embedded.Prelude.{
  refl, inl, inr, Option, none, some, [], ◌∷◌, Bool-cases, Text, ℤ, pos, negsuc,
}
use dsp_embedded.Json.{CJson}
use dsp_embedded.Msg.{validate_transfer_request}
use dsp_embedded.Neg
use dsp_embedded.Neg.{NegState, NegEntry, Negotiations, find_by_cpid, sm_next}
use dsp_embedded.Xfer
use dsp_embedded.Xfer.{XferState, Transfers, find_by_pid, is_transferring}
use dsp_embedded.Xfer.{initial, transferring, completed, failed}
use dsp_embedded.Xfer.Slots
use dsp_embedded.Handlers.{Connector, is_msg_ok, read_pid}
use dsp_embedded.Handlers.Negotiation.{respond, is_agreed}
use dsp_embedded.Handlers.Transfer.{
  respond_start, respond_completion, start_slot, start_agreed, start_pid, start_message, start_body,
  complete_slot, complete_id, respond_state, xfer_get_slot, xfer_get_id,
}
use dsp_embedded.Handlers.Refusals.Negotiation.{Keeps}

module _ (J : CJson) where
  start_slot-Keeps :
      (c : Connector J) (stack pid : Text) (r : ℤ × Transfers)
      → Xfer.Slots.Creates c.xfer (Xfer.fresh_entry pid) r
      → Keeps J c (start_slot J c stack pid r)
  unfolding start_slot respond_start respond
  start_slot-Keeps c stack pid r (Slots.full n) = λ e reason sent. (refl, refl)
  start_slot-Keeps c stack pid r (Slots.takes i old at free) = λ e reason sent. absurd (cc)

  start_agreed-Keeps :
      (c : Connector J) (stack pid : Text) (idx : ℤ) → Keeps J c (start_agreed J c stack pid idx)
  unfolding start_agreed
  start_agreed-Keeps c stack pid (negsuc n) = λ e reason sent. (refl, refl)
  start_agreed-Keeps c stack pid (pos k) =
      elim (Bool-cases (is_agreed (Neg.get_state c.neg (pos k)))) [
        | inr b ↦ rw b (λ e reason sent. (refl, refl))
        | inl b ↦ rw b (
            start_slot-Keeps c stack pid (Xfer.create c.xfer (some pid))
              (Slots.create-Creates c.xfer pid))
      ]

  start_pid-Keeps : (c : Connector J) (stack pid : Text) → Keeps J c (start_pid J c stack pid)
  unfolding start_pid
  start_pid-Keeps c stack [] = λ e reason sent. (refl, refl)
  start_pid-Keeps c stack (x ∷ s) =
      start_agreed-Keeps c stack (x ∷ s) (find_by_cpid c.neg (some (x ∷ s)))

  start_message-Keeps :
      (c : Connector J) (stack : Text) (r : Option J.Node × J.Heap)
      → Keeps J c (start_message J c stack r)
  unfolding start_message
  start_message-Keeps c stack (none, h) = λ e reason sent. (refl, refl)
  start_message-Keeps c stack (some msg, h) =
      start_pid-Keeps (record c { heap = J.delete h msg }) stack (read_pid J msg)

  pub start_body-Keeps :
      (c : Connector J) (stack : Text) (body : Option Text) → Keeps J c (start_body J c stack body)
  unfolding start_body
  start_body-Keeps c stack none = λ e reason sent. (refl, refl)
  start_body-Keeps c stack (some body) =
      let v = validate_transfer_request J c.heap (some body) in
      elim (Bool-cases (is_msg_ok v.0)) [
        | inr b ↦ rw b (λ e reason sent. (refl, refl))
        | inl b ↦ rw b (start_message-Keeps (record c { heap = v.1 }) stack (J.parse v.1 body))
      ]

  complete_slot-Keeps :
      (c : Connector J) (stack id : Text) (idx : ℤ) → Keeps J c (complete_slot J c stack id idx)
  unfolding complete_slot respond_completion respond
  complete_slot-Keeps c stack id (negsuc n) = λ e reason sent. (refl, refl)
  complete_slot-Keeps c stack id (pos i) =
      elim (Bool-cases (is_transferring (Xfer.get_state c.xfer (pos i)))) [
        | inl b ↦ rw b (λ e reason sent. absurd (cc))
        | inr b ↦ rw b (λ e reason sent. (refl, refl))
      ]

  pub complete_id-Keeps : (c : Connector J) (stack id : Text) → Keeps J c (complete_id J c stack id)
  unfolding complete_id
  complete_id-Keeps c stack [] = λ e reason sent. (refl, refl)
  complete_id-Keeps c stack (x ∷ s) =
      complete_slot-Keeps c stack (x ∷ s) (find_by_pid c.xfer (some (x ∷ s)))

  respond_state-Keeps :
      (c : Connector J) (stack id : Text) (s : XferState) → Keeps J c (respond_state J c stack id s)
  unfolding respond_state respond_start respond_completion respond
  respond_state-Keeps c stack id completed = λ e reason sent. (refl, refl)
  respond_state-Keeps c stack id failed = λ e reason sent. (refl, refl)
  respond_state-Keeps c stack id transferring = λ e reason sent. (refl, refl)
  respond_state-Keeps c stack id initial = λ e reason sent. (refl, refl)

  xfer_get_slot-Keeps :
      (c : Connector J) (stack id : Text) (idx : ℤ) → Keeps J c (xfer_get_slot J c stack id idx)
  unfolding xfer_get_slot
  xfer_get_slot-Keeps c stack id (negsuc n) = λ e reason sent. (refl, refl)
  xfer_get_slot-Keeps c stack id (pos i) =
      respond_state-Keeps c stack id (Xfer.get_state c.xfer (pos i))

  pub xfer_get_id-Keeps : (c : Connector J) (stack id : Text) → Keeps J c (xfer_get_id J c stack id)
  unfolding xfer_get_id
  xfer_get_id-Keeps c stack [] = λ e reason sent. (refl, refl)
  xfer_get_id-Keeps c stack (x ∷ s) =
      xfer_get_slot-Keeps c stack (x ∷ s) (find_by_pid c.xfer (some (x ∷ s)))
