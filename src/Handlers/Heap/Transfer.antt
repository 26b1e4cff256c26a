-- ===== src/Handlers/Heap/Transfer.antt =====
-- What the handlers of components/dsp_xfer/dsp_xfer.c leave on the heap of cJSON.
use dsp_embedded.Prelude.{
  ◌≡◌, refl, ◌∙◌, inl, inr, Option, none, some, [], ◌∷◌, Bool-cases, Text, codes, ℤ, pos, negsuc,
}
use dsp_embedded.Json.{CJson}
use dsp_embedded.Json.Accounts.{Accounting, Made}
use dsp_embedded.Jsonld.{provider_id}
use dsp_embedded.Msg.{validate_transfer_request}
use dsp_embedded.Msg.Verdict.{validate, transfer_request}
use dsp_embedded.Msg.Frees.{validate_frees}
use dsp_embedded.Build.Frees.{build, build_frees, start, completion, error}
use dsp_embedded.Neg.{find_by_cpid, get_state}
use dsp_embedded.Xfer
use dsp_embedded.Xfer.{
  XferState, initial, transferring, completed, failed, Transfers, is_transferring, find_by_pid,
}
use dsp_embedded.Handlers.{Connector, buf_size, is_msg_ok, read_pid}
use dsp_embedded.Handlers.Negotiation.{respond, is_agreed}
use dsp_embedded.Handlers.Transfer.{
  respond_start, respond_completion, start_slot, start_agreed, start_pid, start_message, start_body,
  complete_slot, complete_id, respond_state, xfer_get_slot, xfer_get_id,
}
use dsp_embedded.Handlers.Heap.Negotiation.{blocks_of, deleted}

module _ (J : CJson) (A : Accounting J) where
  respond_start_frees :
      (c : Connector J) (stack pid : Text)
      → blocks_of J A (respond_start J c stack pid).1 ≡ blocks_of J A c
  unfolding respond_start respond build
  respond_start_frees c stack pid =
      build_frees J A c.heap (some stack) buf_size (start (some pid) (some provider_id))

  respond_completion_frees :
      (c : Connector J) (stack pid : Text)
      → blocks_of J A (respond_completion J c stack pid).1 ≡ blocks_of J A c
  unfolding respond_completion respond build
  respond_completion_frees c stack pid =
      build_frees J A c.heap (some stack) buf_size (completion (some pid))

  start_slot_frees :
      (c : Connector J) (stack pid : Text) (r : ℤ × Transfers)
      → blocks_of J A (start_slot J c stack pid r).1 ≡ blocks_of J A c
  unfolding start_slot
  start_slot_frees c stack pid (negsuc n, x) = refl
  start_slot_frees c stack pid (pos i, x) =
      respond_start_frees (record c { xfer = (Xfer.apply x (pos i) Xfer.start).1 }) stack pid

  start_agreed_frees :
      (c : Connector J) (stack pid : Text) (idx : ℤ)
      → blocks_of J A (start_agreed J c stack pid idx).1 ≡ blocks_of J A c
  unfolding start_agreed
  start_agreed_frees c stack pid (negsuc n) = refl
  start_agreed_frees c stack pid (pos k) = elim (Bool-cases (is_agreed (get_state c.neg (pos k)))) [
    | inl e ↦ rw e (start_slot_frees c stack pid (Xfer.create c.xfer (some pid)))
    | inr e ↦ rw e refl
  ]

  start_pid_frees :
      (c : Connector J) (stack pid : Text)
      → blocks_of J A (start_pid J c stack pid).1 ≡ blocks_of J A c
  unfolding start_pid
  start_pid_frees c stack [] = refl
  start_pid_frees c stack (x ∷ s) =
      start_agreed_frees c stack (x ∷ s) (find_by_cpid c.neg (some (x ∷ s)))

  start_message_frees :
      (c : Connector J) (stack : Text) (r : Option J.Node × J.Heap)
      → Made J A.live A.size c.heap r
      → blocks_of J A (start_message J c stack r).1 ≡ blocks_of J A c
  unfolding start_message
  start_message_frees c stack (none, h) m = m
  start_message_frees c stack (some msg, h) m =
      start_pid_frees (record c { heap = J.delete h msg }) stack (read_pid J msg)
      ∙ deleted J A c.heap h msg m

  pub start_body_frees :
      (c : Connector J) (stack : Text) (body : Option Text)
      → blocks_of J A (start_body J c stack body).1 ≡ blocks_of J A c
  unfolding start_body validate
  start_body_frees c stack none = refl
  start_body_frees c stack (some body) =
      let v = validate_transfer_request J c.heap (some body) in
      let same : A.live v.1 ≡ A.live c.heap = validate_frees J A transfer_request c.heap body in
      elim (Bool-cases (is_msg_ok v.0)) [
        | inr e ↦ rw e same
        | inl e ↦ rw e (
            start_message_frees (record c { heap = v.1 }) stack (J.parse v.1 body)
              (A.parse-Made v.1 body)
            ∙ same)
      ]

  complete_slot_frees :
      (c : Connector J) (stack id : Text) (idx : ℤ)
      → blocks_of J A (complete_slot J c stack id idx).1 ≡ blocks_of J A c
  unfolding complete_slot
  complete_slot_frees c stack id (negsuc n) = refl
  complete_slot_frees c stack id (pos i) =
      elim (Bool-cases (is_transferring (Xfer.get_state c.xfer (pos i)))) [
        | inl e ↦ rw e (
            respond_completion_frees
              (record c { xfer = (Xfer.apply c.xfer (pos i) Xfer.complete).1 }) stack id)
        | inr e ↦ rw e refl
      ]

  pub complete_id_frees :
      (c : Connector J) (stack id : Text)
      → blocks_of J A (complete_id J c stack id).1 ≡ blocks_of J A c
  unfolding complete_id
  complete_id_frees c stack [] = refl
  complete_id_frees c stack (x ∷ s) =
      complete_slot_frees c stack (x ∷ s) (find_by_pid c.xfer (some (x ∷ s)))

  respond_state_frees :
      (c : Connector J) (stack id : Text) (s : XferState)
      → blocks_of J A (respond_state J c stack id s).1 ≡ blocks_of J A c
  unfolding respond_state respond build
  respond_state_frees c stack id completed = respond_completion_frees c stack id
  respond_state_frees c stack id failed =
      build_frees J A c.heap (some stack) buf_size
        (error (some (codes "FAILED")) (some (codes "transfer failed")))
  respond_state_frees c stack id transferring = respond_start_frees c stack id
  respond_state_frees c stack id initial = respond_start_frees c stack id

  xfer_get_slot_frees :
      (c : Connector J) (stack id : Text) (idx : ℤ)
      → blocks_of J A (xfer_get_slot J c stack id idx).1 ≡ blocks_of J A c
  unfolding xfer_get_slot
  xfer_get_slot_frees c stack id (negsuc n) = refl
  xfer_get_slot_frees c stack id (pos i) =
      respond_state_frees c stack id (Xfer.get_state c.xfer (pos i))

  pub xfer_get_id_frees :
      (c : Connector J) (stack id : Text)
      → blocks_of J A (xfer_get_id J c stack id).1 ≡ blocks_of J A c
  unfolding xfer_get_id
  xfer_get_id_frees c stack [] = refl
  xfer_get_id_frees c stack (x ∷ s) =
      xfer_get_slot_frees c stack (x ∷ s) (find_by_pid c.xfer (some (x ∷ s)))
