-- ===== src/Jsonld.antt =====
-- components/dsp_jsonld/include/dsp_jsonld_ctx.h: the constants that the messages and their
-- validation use, and the identity of the provider and the dataset of
-- components/dsp_config/include/dsp_config.h.
use dsp_embedded.Prelude.{Text, codes}

abbrev pub context_url : Text
context_url = codes "https://w3id.org/dspace/2024/1/context.json"

abbrev pub field_context : Text
field_context = codes "@context"

abbrev pub field_type : Text
field_type = codes "@type"

abbrev pub field_id : Text
field_id = codes "@id"

abbrev pub field_process_id : Text
field_process_id = codes "dspace:processId"

abbrev pub field_code : Text
field_code = codes "dspace:code"

abbrev pub field_reason : Text
field_reason = codes "dspace:reason"

abbrev pub field_offer : Text
field_offer = codes "dspace:offer"

abbrev pub field_agreement : Text
field_agreement = codes "dspace:agreement"

abbrev pub field_dataset : Text
field_dataset = codes "dspace:dataset"

abbrev pub field_data_address : Text
field_data_address = codes "dspace:dataAddress"

abbrev pub type_catalog_request : Text
type_catalog_request = codes "dspace:CatalogRequestMessage"

abbrev pub type_catalog : Text
type_catalog = codes "dcat:Catalog"

abbrev pub type_contract_offer : Text
type_contract_offer = codes "dspace:ContractOfferMessage"

abbrev pub type_contract_agreement : Text
type_contract_agreement = codes "dspace:ContractAgreementMessage"

abbrev pub type_negotiation_event : Text
type_negotiation_event = codes "dspace:ContractNegotiationEventMessage"

abbrev pub type_transfer_request : Text
type_transfer_request = codes "dspace:TransferRequestMessage"

abbrev pub type_transfer_start : Text
type_transfer_start = codes "dspace:TransferStartMessage"

abbrev pub type_transfer_completion : Text
type_transfer_completion = codes "dspace:TransferCompletionMessage"

abbrev pub type_error : Text
type_error = codes "dspace:Error"

abbrev pub state_requested : Text
state_requested = codes "dspace:REQUESTED"

abbrev pub state_offered : Text
state_offered = codes "dspace:OFFERED"

abbrev pub state_agreed : Text
state_agreed = codes "dspace:AGREED"

abbrev pub state_verified : Text
state_verified = codes "dspace:VERIFIED"

abbrev pub state_finalized : Text
state_finalized = codes "dspace:FINALIZED"

abbrev pub state_terminated : Text
state_terminated = codes "dspace:TERMINATED"

-- `CONFIG_DSP_PROVIDER_ID`.
abbrev pub provider_id : Text
provider_id = codes "urn:uuid:dsp-embedded-provider-1"
