-- ===== src/Handlers/Tests.antt =====
-- The HTTP handlers at concrete requests.
use dsp_embedded.Json.Model.{depth_limit}
use dsp_embedded.Prelude.{
  arith, false, true, ◌≡◌, refl, ℕ, Option, none, some, List, [], ◌∷◌, Text, codes, strcmp_eq,
}
use dsp_embedded.Json.Model.{
  Allocator, trees, Tree, str, no_field, field, printed, quoted, parsed, unquoted, parse_tree,
  granted_node, blocks, find,
}
use dsp_embedded.Json.Model.Accounts.{trees-Accounting}
use dsp_embedded.Jsonld.{
  field_context, field_type, field_process_id, field_dataset, context_url, type_contract_offer,
  type_transfer_request,
}
use dsp_embedded.Neg
use dsp_embedded.Xfer
use dsp_embedded.Handlers.{Connector, Request, bad_request, segment}
use dsp_embedded.Handlers.Negotiation.{agree_post_handler, agree_id}
use dsp_embedded.Handlers.Serve.{Call, offers, agrees, starts, handle, serve}
use dsp_embedded.Handlers.Tables.{AreSound}
use dsp_embedded.Handlers.Backed.{up, WasAgreed, serve-up-AreSound}
use dsp_embedded.Handlers.Live.{Runs}
use dsp_embedded.Handlers.Running.{posted, agreeing, serve-Runs}
use dsp_embedded.Json.{CJson}
use dsp_embedded.Handlers.Heap.{serve_frees}
use dsp_embedded.Handlers.Refusals.{handle_refused}

abbrev heap : Allocator
heap = record { granted = 90; allocated = 7 }

-- Nothing was received.
abbrev nothing : ℕ → Option Text
nothing n = none

abbrev pid_field : Tree → Tree
pid_field r = field field_process_id (str (codes "p1")) r

abbrev offer_tree : Tree
offer_tree =
    pid_field
      (field field_type (str type_contract_offer) (field field_context (str context_url) no_field))

abbrev start_tree : Tree
start_tree = pid_field (
    field field_dataset (str (codes "d")) (
      field field_type (str type_transfer_request)
        (field field_context (str context_url) no_field)))

abbrev named : Text → Request
named uri_ = record { uri = some uri_; recv = nothing }

-- An offer, its agreement, and two attempts to start the transfer.
abbrev calls : List Call
calls =
    posted offers [] (printed offer_tree [])
    ∷ posted starts [] (printed start_tree [])
    ∷ agreeing (codes "p1") (codes "agree") []
    ∷ posted starts [] (printed start_tree [])
    ∷ []

serve-up-AreSound_example :
    AreSound
      (WasAgreed trees (up trees 2 2 heap) calls)
      2
      (serve trees (up trees 2 2 heap) calls).neg
      (serve trees (up trees 2 2 heap) calls).xfer
serve-up-AreSound_example = serve-up-AreSound trees 2 2 heap calls

serve_frees_example :
    trees-Accounting.live (serve trees (up trees 2 2 heap) calls).heap ≡ trees-Accounting.live heap
serve_frees_example = serve_frees trees trees-Accounting calls (up trees 2 2 heap)

-- A request without an ID.
handle_refused_example :
    ((handle trees (up trees 2 2 heap) agrees [] (named (codes "/other"))).1.neg
      ≡ (up trees 2 2 heap).neg)
    × ((handle trees (up trees 2 2 heap) agrees [] (named (codes "/other"))).1.xfer
        ≡ (up trees 2 2 heap).xfer)
unfolding handle agree_post_handler agree_id segment strcmp_eq
handle_refused_example =
    handle_refused trees (up trees 2 2 heap) agrees [] (named (codes "/other")) bad_request
      (codes "missing negotiation id") refl

abbrev tree_of : Option (Tree × Text) → Option Tree
tree_of none = none
tree_of (some r) = some r.0

-- The small tree library with a parser that never lacks memory.
abbrev ample : CJson
ample = record trees { parse = λ h text. (tree_of (parsed depth_limit text), h) }

abbrev idle : Connector ample
idle = record {
  neg = record { table = Neg.zero_entry ∷ Neg.zero_entry ∷ []; initialized = true };
  xfer = record {
    table = Xfer.zero_entry ∷ [];
    initialized = true;
    has_notify = false;
    notified = [];
  };
  heap = heap;
}

serve-Runs_example :
    Runs
      (serve ample idle (
        posted offers [] (printed offer_tree [])
        ∷ agreeing (codes "p1") (codes "agree") []
        ∷ posted starts [] (printed start_tree [])
        ∷ [])).xfer.table
      (codes "p1")
unfolding printed quoted parsed unquoted parse_tree granted_node blocks find strcmp_eq
    Neg.count_active Xfer.count_active
serve-Runs_example =
    serve-Runs ample idle 112 (49 ∷ []) (codes "agree") [] [] [] (printed offer_tree [])
      (printed start_tree []) offer_tree start_tree
      ((λ e. absurd (omega (arith, e))), ((λ e. absurd (omega (arith, e))), tt)) (omega arith)
      (omega arith) (omega arith) (refl, λ e. absurd (omega (arith, e)))
      (λ e. absurd (omega (arith, e))) (λ h. refl) (λ h. refl) (λ e. absurd (cc)) refl refl refl
      refl refl
