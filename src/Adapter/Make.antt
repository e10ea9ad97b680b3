-- ===== src/Adapter/Make.antt =====
-- `make_adapter` of app/multi_provider.py: the adapter of a provider, as Forward calls it.
use prismux.Prelude.{ℕ, Option, none, some, Str, text}
use prismux.Json.{Value, Fields}
use prismux.Provider.Config.{ProviderConfig, AdapterKind, openai_compatible, anthropic}
use prismux.Forward.{Outgoing}
use prismux.Forward.Chat.{Adapter}
use prismux.Adapter.Checked.{Checked, good, refused, raised, to_prepared}
use prismux.Adapter.OpenAi
use prismux.Adapter.Anthropic
use prismux.Adapter.Answer

abbrev pub to_option : Checked Fields → Option Fields
to_option (good fs) = some fs
to_option (refused e) = none
to_option raised = none

module _ (parse : Str → Option Value) (show dump : Value → Str) (now : ℕ) where
  abbrev pub prepare : AdapterKind → ProviderConfig → Fields → Str → Checked Outgoing
  prepare anthropic config payload model = Anthropic.prepare_request show parse config payload model
  prepare openai_compatible config payload model = OpenAi.prepare_request show config payload model

  -- `ProviderAdapter.prepare_embeddings_request` refuses for Anthropic.
  abbrev pub prepare_embeddings : AdapterKind → ProviderConfig → Fields → Str → Checked Outgoing
  prepare_embeddings anthropic config payload model =
      refused (text "Provider adapter 'anthropic' does not support embeddings")
  prepare_embeddings openai_compatible config payload model =
      OpenAi.prepare_embeddings_request config payload model

  abbrev pub normalize : AdapterKind → Fields → Str → Option Fields
  normalize anthropic response model = to_option (Answer.normalize_response dump now response model)
  normalize openai_compatible response model = some response

  unfoldable pub make_adapter : Adapter
  make_adapter = record {
    prepare_request =
        λ config payload model. to_prepared (prepare config.adapter config payload model);
    prepare_embeddings_request = λ config payload model.
        to_prepared (prepare_embeddings config.adapter config payload model);
    normalize_response = λ config response model. normalize config.adapter response model;
  }
