-- ===== src/Adapter/Checked.antt =====
-- What a translation of app/multi_provider.py comes to: a value, an `AdapterError` with its text, or
-- another exception of Python's.
use prismux.Prelude.{Option, none, some, Str}
use prismux.Forward.{Outgoing, Prepared, outgoing, adapter_error, breaks_off}

pub data Checked {ℓ} (A : Type ℓ) : Type ℓ where
  good : A → Checked A
  refused : Str → Checked A
  raised : Checked A

infixl 5 ◌>>=◌
abbrev pub ◌>>=◌ {ℓ κ} : {A : Type ℓ} {B : Type κ} → Checked A → (A → Checked B) → Checked B
good a >>= f = f a
refused e >>= f = refused e
raised >>= f = raised

abbrev pub or_raise {ℓ} : {A : Type ℓ} → Option A → Checked A
or_raise none = raised
or_raise (some a) = good a

abbrev pub to_prepared : Checked Outgoing → Prepared
to_prepared (good o) = outgoing o
to_prepared (refused e) = adapter_error e
to_prepared raised = breaks_off
