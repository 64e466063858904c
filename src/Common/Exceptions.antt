-- ===== src/Common/Exceptions.antt =====
-- Python's exceptions. A pure function that may raise returns a `Result`.
use mathlib.Core.Path.{◌≡◌, refl}
use mathlib.Core.Logic.{◌⊎◌, inl, inr}

-- `assertion_error` is a failed `assert`, and `out_of_fuel` no exception of Python: a loop of the
-- model got less fuel than it needs. The other names are the classes of the source.
pub data Error : Type 0 where
  value_error index_error key_error type_error struct_error io_error runtime_error : Error
  assertion_error attribute_error page_full_error catalog_error query_error sql_syntax_error : Error
  out_of_fuel : Error

pub data Result {ℓ} (A : Type ℓ) : Type ℓ where
  ok : A → Result A
  raise : Error → Result A

infixl 10 ◌>>=◌ ◌>>◌
abbrev pub ◌>>=◌ {ℓ κ} : {A : Type ℓ} {B : Type κ} → Result A → (A → Result B) → Result B
raise error >>= next = raise error
ok x >>= next = next x

abbrev pub ◌>>◌ {ℓ κ} : {A : Type ℓ} {B : Type κ} → Result A → Result B → Result B
first >> second = first >>= λ _. second

pub Result-cases {ℓ} :
    {A : Type ℓ} (r : Result A) → ((a : A) × (r ≡ ok a)) ⊎ ((e : Error) × (r ≡ raise e))
Result-cases (ok a) = inl (a, refl)
Result-cases (raise e) = inr (e, refl)

pub >>=-eq-ok {ℓ κ} :
    {A : Type ℓ} {B : Type κ} (call : Result A) (next : A → Result B) {y : B}
    → (call >>= next) ≡ ok y
    → (x : A) × (call ≡ ok x) × (next x ≡ ok y)
>>=-eq-ok (ok x) next e = (x, refl, e)
>>=-eq-ok (raise error) next e = cc
