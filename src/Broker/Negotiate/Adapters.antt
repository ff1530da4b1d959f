-- ===== src/Broker/Negotiate/Adapters.antt =====
-- The model client of Bedrock and the proposal store in memory (backend/src/deadbolt/broker/negotiate.py).
use sams_simlplifynext.Prelude.{
  suc, String, not, ◌&&◌, Option, none, some, List, [], ◌∷◌, ◌++◌, length, if◌then◌else◌,
}
use sams_simlplifynext.Prelude.Text.{str_eq, filled, text_in}
use sams_simlplifynext.Prelude.Int.{pos}
use sams_simlplifynext.Errors.{Exn, client_error, provider_error, Result, ok, err, ◌>>=◌}
use sams_simlplifynext.Exec.{Exec, raise, lift, catch}
use sams_simlplifynext.Exec
use sams_simlplifynext.Value.{Values, Fields, name, text, items, mapping, nil, cons, find, get, put}
use sams_simlplifynext.Plan.Canonical.{◌⧺◌, int_text}

-- The codes of a client error after which the other model is asked
abbrev pub fallback_codes : List String
fallback_codes =
    "AccessDeniedException" ∷ "ModelNotReadyException" ∷ "ResourceNotFoundException"
    ∷ "ValidationException" ∷ []

abbrev pub mapping_at : String → Fields → Result Fields
unfolding find
mapping_at k m = elim (get k m) [
  | some (mapping inner) ↦ ok inner
  | some v ↦ err provider_error
  | none ↦ err provider_error
]

-- The content of a message. A mapping is iterated by its keys, none of which is a mapping.
abbrev pub content_of : Fields → Result Values
unfolding find
content_of message = elim (get "content" message) [
  | some (items vs) ↦ ok vs
  | some (mapping m) ↦ ok nil
  | some v ↦ err provider_error
  | none ↦ err provider_error
]

abbrev pub part_text : Fields → String
unfolding find
part_text m = elim (get "text" m) [ some (text s) ↦ s | some v ↦ "" | none ↦ "" ]

-- `"".join` of the texts of the parts
unfoldable pub joined_parts : Values → String
unfolding part_text
joined_parts nil = ""
joined_parts (cons (mapping m) vs) = part_text m ⧺ joined_parts vs
joined_parts (cons v vs) = joined_parts vs

unfoldable pub response_text : Fields → Result String
unfolding mapping_at content_of joined_parts
response_text response = do
  output ← mapping_at "output" response
  message ← mapping_at "message" output
  content ← content_of message
  let answer = joined_parts content
  if filled answer then ok answer else err provider_error

module _ {W : Type 0} (converse : String → String → Exec W Fields)
    (fallback_model_id : Option String) where
  -- The handler of a client error
  unfoldable pub ask_fallback : String → String → Exn → Exec W Fields
  unfolding text_in
  ask_fallback model_id prompt (client_error code) = elim fallback_model_id [
    | none ↦ raise (client_error code)
    | some fallback ↦
        if not (str_eq model_id fallback) && text_in code fallback_codes
        then converse fallback prompt
        else raise (client_error code)
  ]
  ask_fallback model_id prompt e = raise e

  -- `BedrockLLMClient.complete`
  unfoldable pub complete_model : String → String → Exec W String
  unfolding ask_fallback response_text
  complete_model model_id prompt =
      Exec.◌>>=◌ (catch (converse model_id prompt) (ask_fallback model_id prompt))
        λ response. lift (response_text response)

-- `MemoryProposalStore.write`
unfoldable pub write_proposal : Fields → Exec (List Fields) String
unfolding int_text put
write_proposal proposal records =
    let proposal_id = "proposal-" ⧺ int_text (pos (suc (length records))) in
    (ok proposal_id, records ++ put (name "proposal_id") (text proposal_id) proposal ∷ [])
