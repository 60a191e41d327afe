-- ===== src/Commerce/Dialogue.antt =====
-- apps/web/lib/dialogue.ts: the bounded memory of a conversation.
use agentready_commerce.Prelude.{
  ℕ, ◌-◌, String, Bool, true, false, not, ◌&&◌, Option, none, some, List, [], ◌∷◌, ◌++◌, length,
  drop, includes, truthy, if◌then◌else◌, ◌<>◌, eqb, Host,
}
use agentready_commerce.Commerce.Session.{ParsedIntent, DialogueMemory}

abbrev pub max_recent_actions : ℕ
max_recent_actions = 10

unfoldable pub create_dialogue_memory : DialogueMemory
create_dialogue_memory = record {
  intent_version = 0;
  recommendation_version = 0;
  recommendation_intent_version = none;
  recommendation_action_token = none;
  requirements = [];
  preferences = [];
  unresolved = [];
  shown_product_ids = [];
  compared_product_ids = [];
  selected_product_id = none;
  quote_product_id = none;
  quote_valid = false;
  quote_intent_version = none;
  quote_recommendation_version = none;
  quote_action_token = none;
  recent_actions = [];
  evidence = [];
}

-- `xs.slice(-n)`.
abbrev pub last {ℓ} : {A : Type ℓ} → ℕ → List A → List A
last n xs = drop (length xs - n) xs

-- `if (x) list.push(...)` on an optional text, number or flag.
abbrev push_text : Option String → String → List String
push_text none label = []
push_text (some s) label = if truthy s then (label <> s) ∷ [] else []

abbrev push_number : Option ℕ → (ℕ → String) → List String
push_number none label = []
push_number (some n) label = if eqb n 0 then [] else label n ∷ []

abbrev push_flag : Option Bool → String → List String
push_flag none label = []
push_flag (some true) label = label ∷ []
push_flag (some false) label = []

module _ (host : Host) where
  requirements_of : ParsedIntent → List String
  requirements_of i =
      push_text i.size "size "
      ++ (push_text i.colour "colour "
          ++ (push_text i.use_case "use case "
              ++ (push_number i.max_amount_minor (λ n. "budget ₹" <> host.whole_rupees n)
                  ++ push_flag i.must_be_returnable "returnable")))

  preferences_of : ParsedIntent → List String
  preferences_of i =
      push_text i.fit "fit "
      ++ (push_text i.cushioning "cushioning "
          ++ push_number i.distance_km (λ n. "distance " <> host.show n <> "K"))

  unfoldable pub sync_memory :
      DialogueMemory → ParsedIntent → List String → List String → String → String → DialogueMemory
  unfolding requirements_of preferences_of
  sync_memory m intent shown missing action user_evidence = record m {
    requirements = requirements_of intent;
    preferences = preferences_of intent;
    unresolved = missing;
    shown_product_ids = shown;
    recent_actions = last max_recent_actions (m.recent_actions ++ action ∷ []);
    evidence =
        if truthy user_evidence && not (includes m.evidence user_evidence)
        then last 8 (m.evidence ++ user_evidence ∷ [])
        else m.evidence;
  }

unfoldable pub invalidate_quote : DialogueMemory → DialogueMemory
invalidate_quote m = record m {
  quote_valid = false;
  selected_product_id = none;
  quote_product_id = none;
  quote_intent_version = none;
  quote_recommendation_version = none;
  quote_action_token = none;
  compared_product_ids = [];
}

unfoldable pub invalidate_recommendations : DialogueMemory → DialogueMemory
invalidate_recommendations m = record m {
  shown_product_ids = [];
  recommendation_intent_version = none;
  recommendation_action_token = none;
}
