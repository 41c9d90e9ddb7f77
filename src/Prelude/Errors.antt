-- ===== src/Prelude/Errors.antt =====
-- The outcome of an operation that may raise `StructuredError` (core/models.py): its value, or
-- the error's code. The message and the details of an error are not modelled.

pub data Outcome {ℓ} (C : Type 0) (A : Type ℓ) : Type ℓ where
  ok : A → Outcome C A
  raised : C → Outcome C A
