-- ===== src/Handlers.antt =====
-- The HTTP handlers of components/dsp_neg/dsp_neg.c, components/dsp_xfer/dsp_xfer.c and
-- components/dsp_catalog/dsp_catalog.c. The server of ESP-IDF is read only through the request: its
-- URI, and what `httpd_req_recv` gives for the room of a buffer. A handler takes and returns the
-- state of the connector; its reply is the error or the JSON text that it sends. `stack` is what
-- stands in the response buffer before a builder writes to it: the code does not initialise it.
use dsp_embedded.Prelude.{
  ℕ, ◌-◌, Bool, true, false, Option, none, some, List, [], ◌∷◌, if◌then◌else◌, ◌==◌, length, take,
  drop, Text, codes, strncmp_eq,
}
use dsp_embedded.Json.{CJson, get_string}
use dsp_embedded.Jsonld.{field_process_id}
use dsp_embedded.Msg.{MsgErr, msg_ok}
use dsp_embedded.Neg.{Negotiations}
use dsp_embedded.Xfer.{Transfers}
pub mod Negotiation
pub mod Transfer
pub mod Catalog
pub mod Serve
pub mod Heap
pub mod Path
pub mod Live
pub mod Running
pub mod Tables
pub mod Backed
pub mod Refusals
mod Tests

-- `httpd_req_t`: the URI, and what `httpd_req_recv` gives for a number of bytes, where it gives any.
pub record Request : Type 0 where
  pub uri : Option Text
  pub recv : ℕ → Option Text

-- `httpd_err_code_t`, as far as the handlers use it.
pub data HttpErr : Type 0 where
  bad_request not_found server_error : HttpErr

-- What a handler sends: `httpd_resp_send_err`, after which it returns ESP_FAIL, or a JSON text with
-- the status line that was set, if any, after which it returns ESP_OK.
pub data Reply : Type 0 where
  refused : HttpErr → Text → Reply
  json : Option Text → Text → Reply

-- The static state of dsp_neg and dsp_xfer, and the heap of cJSON.
pub record Connector (J : CJson) : Type 0 where
  pub neg : Negotiations
  pub xfer : Transfers
  pub heap : J.Heap

-- `NEG_BUF_SIZE` and `XFER_BUF_SIZE`.
abbrev pub buf_size : ℕ
buf_size = 1024

-- `DSP_NEG_PID_LEN` and `DSP_XFER_PID_LEN`, the sizes of the buffers for a process ID.
abbrev pub pid_size : ℕ
pid_size = 64

abbrev pub is_msg_ok : MsgErr → Bool
is_msg_ok msg_ok = true
is_msg_ok rc = false

-- The string in a buffer that is there.
abbrev pub text_of : Option Text → Text
text_of none = []
text_of (some s) = s

-- The part before the first `/`, which is 47.
abbrev pub before_slash : Text → Text
before_slash [] = []
before_slash (c ∷ s) = if c == 47 then [] else c ∷ before_slash s

-- `extract_neg_id` and `extract_xfer_id`, for a prefix and a buffer of `size` bytes.
pub segment : Text → Option Text → ℕ → Text
segment prefix none size = []
segment prefix (some uri) size =
    if strncmp_eq (length prefix) uri prefix
    then take (size - 1) (before_slash (drop (length prefix) uri))
    else []

-- The process ID that a handler reads from a message into an empty buffer.
pub read_pid : (J : CJson) → J.Node → Text
read_pid J msg = text_of (get_string J (some msg) (some field_process_id) (some []) pid_size).1
