-- ===== src/Websocket/Messages/Parsing/Acceptance.antt =====
-- What every message that the parser accepts satisfies.
use ai_proctor_engine.Base.{
  ℕ, String, ◌≡◌, Bool, true, Option, none, some, Bool-cases, inl, inr, Option-cases, arith,
}
use ai_proctor_engine.Base.Options.{◌>>=◌, checked}
use ai_proctor_engine.Floats.{FloatOps}
use ai_proctor_engine.Inference.{Json, null, bool, int, float, text, arr, obj, Fields}
use ai_proctor_engine.Websocket.Messages.{ClientMessageType, Payload, ClientMessage, payload_valid}
use ai_proctor_engine.Websocket.Messages.Parsing.{
  Pydantic, message, lookup, read_envelope, model_validate, type_to_model, validated, parse_typed,
  parse_client_message,
}

-- Whatever the result is, it satisfies `P`.
abbrev Yields : {B : Type 0} → (B → Type 0) → Option B → Type 0
Yields P none = Unit
Yields P (some b) = P b

Yields-bind :
    {A B : Type 0} (P : B → Type 0) (o : Option A) (k : A → Option B)
    → ((a : A) → Yields P (k a))
    → Yields P (o >>= k)
Yields-bind P none k h = tt
Yields-bind P (some a) k h = h a

Yields-checked : {A : Type 0} (p : A → Bool) (a : A) → Yields (λ x. p x ≡ true) (checked p a)
Yields-checked p a = elim (Bool-cases (p a)) [
  | inl e ↦ ground (arith, e)
  | inr e ↦ ground (arith, e)
]

Yields-some : {B : Type 0} (P : B → Type 0) (o : Option B) (b : B) → Yields P o → o ≡ some b → P b
Yields-some P none b y h = ground (arith, h)
Yields-some P (some c) b y h = ground (arith, h, y)

module _ {F : Type 0} ⦃ops : FloatOps F⦄ (pydantic : Pydantic F) where
  abbrev IsValid : ClientMessage F → Type 0
  IsValid m = payload_valid m.payload ≡ true

  IsValid-payload :
      (o : Option (Payload F)) (session_id : String) (captured_at : ℕ)
      → Yields IsValid (
          (o >>= checked payload_valid) >>= (λ p.
            some (record { session_id = session_id; captured_at = captured_at; payload = p })))
  IsValid-payload none session_id captured_at = tt
  IsValid-payload (some p) session_id captured_at = elim (Bool-cases (payload_valid p)) [
    | inl e ↦ ground (arith, e)
    | inr e ↦ ground (arith, e)
  ]

  -- The whole chain of the envelope's fields went through, so the last of them did.
  read_envelope-IsValid :
      (kind : ClientMessageType) (raw : Fields F) → Yields IsValid (read_envelope pydantic kind raw)
  unfolding read_envelope
  read_envelope-IsValid kind raw = search (Yields-bind, IsValid-payload)

  model_validate-IsValid :
      (kind : ClientMessageType) (raw : Fields F)
      → Yields IsValid (model_validate pydantic kind raw)
  unfolding model_validate
  model_validate-IsValid kind raw = ground (arith, read_envelope-IsValid kind raw)

  validated-IsValid :
      (o : Option (ClientMessage F)) (m : ClientMessage F)
      → Yields IsValid o
      → validated o ≡ message m
      → IsValid m
  unfolding validated
  validated-IsValid none m y h = ground (arith, h)
  validated-IsValid (some n) m y h = ground (arith, h, y)

  parse_typed-IsValid :
      (t : Option (Json F)) (raw : Fields F) (m : ClientMessage F)
      → parse_typed pydantic t raw ≡ message m
      → IsValid m
  unfolding parse_typed
  parse_typed-IsValid none raw m h = ground (arith, h)
  parse_typed-IsValid (some null) raw m h = ground (arith, h)
  parse_typed-IsValid (some (bool b)) raw m h = ground (arith, h)
  parse_typed-IsValid (some (int n)) raw m h = ground (arith, h)
  parse_typed-IsValid (some (float v)) raw m h = ground (arith, h)
  parse_typed-IsValid (some (arr items)) raw m h = ground (arith, h)
  parse_typed-IsValid (some (obj fields)) raw m h = ground (arith, h)
  parse_typed-IsValid (some (text s)) raw m h = elim (Option-cases (type_to_model s)) [
    | inl e ↦ ground (arith, h, e)
    | inr (kind, e) ↦
        let valid = model_validate-IsValid kind raw in
        validated-IsValid (model_validate pydantic kind raw) m valid (ground (arith, h, e))
  ]

  pub parse_client_message-valid :
      (raw : Fields F) (m : ClientMessage F)
      → parse_client_message pydantic raw ≡ message m
      → payload_valid m.payload ≡ true
  unfolding parse_client_message
  parse_client_message-valid raw m h = parse_typed-IsValid (lookup "type" raw) raw m h
