-- ===== src/Errors.antt =====
-- errors.py: the exceptions of the platform boundary, and the built-in ones that the code raises.
use astraship.Base.{ℕ, String, ◌≡◌, refl, ◌⊎◌, inl, inr, Bool, true, false, List, [], ◌∷◌}
use astraship.Base.Int.{ℤ}
use astraship.Value.{Value}

-- An f-string: the literal texts and the values that it interpolates, in order.
pub data Part : Type 0 where
  lit : String → Part
  text : String → Part
  -- `{value!r}`
  repr : String → Part
  nat : ℕ → Part
  int : ℤ → Part
  -- `{schema['k']}`, and `{exc}` for the exception that is caught
  shown : Value → Part
  caught : Part

abbrev pub Message : Type 0
Message = List Part

-- The classes of errors.py, in its order, then the built-in classes. `invalid_request_params` is
-- declared in kernel/host_tools.py.
pub data ErrorClass : Type 0 where
  kernel_config kernel_not_found kernel_protocol kernel_version_mismatch kernel_state : ErrorClass
  kernel_timeout kernel_process kernel_remote : ErrorClass
  session_state session_overflow session_persistence : ErrorClass
  tool_registration tool_call : ErrorClass
  invalid_request_params : ErrorClass
  value_error type_error key_error attribute_error overflow_error recursion_error : ErrorClass
  os_error file_not_found file_exists unicode_error : ErrorClass
  timeout_error cancelled_error other_error : ErrorClass

pub record Error : Type 0 where
  pub class : ErrorClass
  pub message : Message

-- `isinstance(exc, KernelProtocolError)`, by the class hierarchy.
abbrev pub is_protocol_error : ErrorClass → Bool
is_protocol_error kernel_protocol = true
is_protocol_error kernel_version_mismatch = true
is_protocol_error kernel_remote = true
is_protocol_error invalid_request_params = true
is_protocol_error _ = false

-- `isinstance(exc, AstrashipError)`.
abbrev pub is_astraship_error : ErrorClass → Bool
is_astraship_error value_error = false
is_astraship_error type_error = false
is_astraship_error key_error = false
is_astraship_error attribute_error = false
is_astraship_error overflow_error = false
is_astraship_error recursion_error = false
is_astraship_error os_error = false
is_astraship_error file_not_found = false
is_astraship_error file_exists = false
is_astraship_error unicode_error = false
is_astraship_error timeout_error = false
is_astraship_error cancelled_error = false
is_astraship_error other_error = false
is_astraship_error _ = true

-- `isinstance(exc, Exception)`: a cancellation is a `BaseException` only.
abbrev pub is_exception : ErrorClass → Bool
is_exception cancelled_error = false
is_exception _ = true

pub data Result {ℓ} (A : Type ℓ) : Type ℓ where
  ok : A → Result A
  err : Error → Result A

-- A call goes on with what the call before it returned; an exception passes through.
infixl 5 ◌>>=◌ ◌>>◌
abbrev pub ◌>>=◌ {ℓ ℓ'} : {A : Type ℓ} {B : Type ℓ'} → Result A → (A → Result B) → Result B
err e >>= next = err e
ok value >>= next = next value

abbrev pub ◌>>◌ {ℓ'} : {B : Type ℓ'} → Result (Unit {0}) → Result B → Result B
first >> next = first >>= λ done. next

abbrev pub raise {ℓ} : {A : Type ℓ} → ErrorClass → String → Result A
raise c s = err (record { class = c; message = lit s ∷ [] })

-- The same for an f-string.
abbrev pub raise_f {ℓ} : {A : Type ℓ} → ErrorClass → Message → Result A
raise_f c m = err (record { class = c; message = m })

abbrev pub raise_f_if : Bool → ErrorClass → Message → Result (Unit {0})
raise_f_if true c m = raise_f c m
raise_f_if false c m = ok tt

-- `if bad: raise ...`
abbrev pub raise_if : Bool → ErrorClass → String → Result (Unit {0})
raise_if true c s = raise c s
raise_if false c s = ok tt

-- Where two calls in a row return, so does the first, and the second at its value.
pub >>=-eq-ok {ℓ ℓ'} :
    {A : Type ℓ} {B : Type ℓ'} (first : Result A) (next : A → Result B) {b : B}
    → (first >>= next) ≡ ok b
    → (a : A) × (first ≡ ok a) × (next a ≡ ok b)
>>=-eq-ok (err e) next h = cc
>>=-eq-ok (ok a) next h = (a, refl, h)

pub Result-cases {ℓ} :
    {A : Type ℓ} (r : Result A) → ((a : A) × (r ≡ ok a)) ⊎ ((e : Error) × (r ≡ err e))
Result-cases (ok a) = inl (a, refl)
Result-cases (err e) = inr (e, refl)
