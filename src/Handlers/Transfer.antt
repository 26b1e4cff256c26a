-- ===== src/Handlers/Transfer.antt =====
-- The handlers of components/dsp_xfer/dsp_xfer.c.
use dsp_embedded.Prelude.{
  ℕ, ◌-◌, not, Option, none, some, [], ◌∷◌, if◌then◌else◌, Text, codes, ℤ, pos, negsuc,
}
use dsp_embedded.Json.{CJson}
use dsp_embedded.Jsonld.{provider_id}
use dsp_embedded.Msg.{validate_transfer_request}
use dsp_embedded.Build.{build_transfer_start, build_transfer_completion, build_error}
use dsp_embedded.Neg
use dsp_embedded.Neg.{find_by_cpid}
use dsp_embedded.Xfer.{
  XferState, initial, transferring, completed, failed, start, complete, Transfers, create, apply,
  get_state, find_by_pid, is_transferring,
}
use dsp_embedded.Handlers.{
  Request, bad_request, not_found, server_error, Reply, refused, Connector, buf_size, pid_size,
  is_msg_ok, segment, read_pid,
}
use dsp_embedded.Handlers.Negotiation.{respond, is_agreed}

-- `extract_xfer_id`.
abbrev pub extract_xfer_id : Option Text → ℕ → Text
extract_xfer_id uri size = segment (codes "/transfers/") uri size

module _ (J : CJson) where
  unfoldable pub respond_start : Connector J → Text → Text → Reply × Connector J
  respond_start c stack pid =
      respond J c none
        (build_transfer_start J c.heap (some stack) buf_size (some pid) (some provider_id))

  unfoldable pub respond_completion : Connector J → Text → Text → Reply × Connector J
  respond_completion c stack pid =
      respond J c none (build_transfer_completion J c.heap (some stack) buf_size (some pid))

  -- After `dsp_xfer_create`.
  unfoldable pub start_slot : Connector J → Text → Text → ℤ × Transfers → Reply × Connector J
  start_slot c stack pid (negsuc n, x) =
      (refused server_error (codes "transfer table full"), record c { xfer = x })
  start_slot c stack pid (pos i, x) =
      respond_start (record c { xfer = (apply x (pos i) start).1 }) stack pid

  -- The test that the negotiation is agreed, which `dsp_neg_get_state` also answers for the index -1.
  unfoldable pub start_agreed : Connector J → Text → Text → ℤ → Reply × Connector J
  start_agreed c stack pid (negsuc n) =
      (refused bad_request (codes "negotiation not in AGREED state"), c)
  start_agreed c stack pid (pos k) =
      if not (is_agreed (Neg.get_state c.neg (pos k)))
      then (refused bad_request (codes "negotiation not in AGREED state"), c)
      else start_slot c stack pid (create c.xfer (some pid))

  unfoldable pub start_pid : Connector J → Text → Text → Reply × Connector J
  start_pid c stack [] = (refused bad_request (codes "missing dspace:processId"), c)
  start_pid c stack (x ∷ s) = start_agreed c stack (x ∷ s) (find_by_cpid c.neg (some (x ∷ s)))

  unfoldable pub start_message : Connector J → Text → Option J.Node × J.Heap → Reply × Connector J
  start_message c stack (none, h) =
      (refused bad_request (codes "invalid JSON"), record c { heap = h })
  start_message c stack (some msg, h) =
      start_pid (record c { heap = J.delete h msg }) stack (read_pid J msg)

  unfoldable pub start_body : Connector J → Text → Option Text → Reply × Connector J
  start_body c stack none = (refused bad_request (codes "empty body"), c)
  start_body c stack (some body) =
      let (rc, h) = validate_transfer_request J c.heap (some body) in
      if not (is_msg_ok rc)
      then (refused bad_request (codes "invalid TransferRequestMessage"), record c { heap = h })
      else start_message (record c { heap = h }) stack (J.parse h body)

  unfoldable pub xfer_start_post_handler : Connector J → Text → Request → Reply × Connector J
  xfer_start_post_handler c stack req = start_body c stack (req.recv (buf_size - 1))

  -- After `dsp_xfer_find_by_pid`.
  unfoldable pub complete_slot : Connector J → Text → Text → ℤ → Reply × Connector J
  complete_slot c stack id (negsuc n) = (refused not_found (codes "transfer not found"), c)
  complete_slot c stack id (pos i) =
      if not (is_transferring (get_state c.xfer (pos i)))
      then (refused bad_request (codes "transfer not in TRANSFERRING state"), c)
      else respond_completion (record c { xfer = (apply c.xfer (pos i) complete).1 }) stack id

  unfoldable pub complete_id : Connector J → Text → Text → Reply × Connector J
  complete_id c stack [] = (refused bad_request (codes "missing transfer id"), c)
  complete_id c stack (x ∷ s) = complete_slot c stack (x ∷ s) (find_by_pid c.xfer (some (x ∷ s)))

  unfoldable pub xfer_complete_post_handler : Connector J → Text → Request → Reply × Connector J
  xfer_complete_post_handler c stack req = complete_id c stack (extract_xfer_id req.uri pid_size)

  -- The `switch` of `xfer_get_handler`.
  unfoldable pub respond_state : Connector J → Text → Text → XferState → Reply × Connector J
  respond_state c stack id completed = respond_completion c stack id
  respond_state c stack id failed = respond J c none (
      build_error J c.heap (some stack) buf_size (some (codes "FAILED"))
        (some (codes "transfer failed")))
  respond_state c stack id transferring = respond_start c stack id
  respond_state c stack id initial = respond_start c stack id

  unfoldable pub xfer_get_slot : Connector J → Text → Text → ℤ → Reply × Connector J
  xfer_get_slot c stack id (negsuc n) = (refused not_found (codes "transfer not found"), c)
  xfer_get_slot c stack id (pos i) = respond_state c stack id (get_state c.xfer (pos i))

  unfoldable pub xfer_get_id : Connector J → Text → Text → Reply × Connector J
  xfer_get_id c stack [] = (refused bad_request (codes "missing transfer id"), c)
  xfer_get_id c stack (x ∷ s) = xfer_get_slot c stack (x ∷ s) (find_by_pid c.xfer (some (x ∷ s)))

  unfoldable pub xfer_get_handler : Connector J → Text → Request → Reply × Connector J
  xfer_get_handler c stack req = xfer_get_id c stack (extract_xfer_id req.uri pid_size)
