-- ===== src/Retriever/Chat/Events.antt =====
-- The order of an answer's events.
use qpedia.Prelude.{
  ◌≡◌, refl, Bool, true, false, Option, none, some, Option-cases, inl, inr, List, [], ◌∷◌,
}
use qpedia.Text.{Text}
use qpedia.Llm.{Message}
use qpedia.Retriever.Gather.{View, Env}
use qpedia.Retriever.Chat.{
  ChatRequest, ChatEvent, meta, token, done, error, TokenStream, stream_events, synthesis, gather,
  chat, build_synthesis_messages,
}

-- Tokens, and then one last event.
abbrev pub IsTail : List ChatEvent → Type 0
IsTail (token text ∷ more) = IsTail more
IsTail (done ∷ more) = more ≡ []
IsTail (error ∷ more) = more ≡ []
IsTail _ = ⊥

abbrev pub IsAnswer : List ChatEvent → Type 0
IsAnswer (meta retrieved mode ∷ more) = IsTail more
IsAnswer (error ∷ more) = more ≡ []
IsAnswer _ = ⊥

stream_events-IsTail : (texts : List Text) (ends : Bool) → IsTail (stream_events texts ends)
unfolding stream_events
stream_events-IsTail [] true = refl
stream_events-IsTail [] false = refl
stream_events-IsTail (text ∷ more) ends = stream_events-IsTail more ends

synthesis-IsTail : (o : Option TokenStream) → IsTail (synthesis o)
unfolding synthesis
synthesis-IsTail none = refl
synthesis-IsTail (some (texts, ends)) = stream_events-IsTail texts ends

-- An answer is one error alone, or the retrieved pages, then tokens, then exactly one last event, which
-- is the end or an error.
pub chat-IsAnswer :
    (env : Env) (stream : List Message → Option TokenStream) (v : View) (req : ChatRequest)
    → IsAnswer (chat env stream v req)
unfolding chat
chat-IsAnswer env stream v req = elim (Option-cases (gather env v req)) [
  | inl e ↦ rw (chat, e) refl
  | inr (pages, e) ↦ rw (chat, e) (synthesis-IsTail (stream (build_synthesis_messages req pages)))
]
