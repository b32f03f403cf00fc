-- ===== src/Prelude/Errors.antt =====
-- What stops a run of the program, and the results of code that may stop.
use mathlib.Core.Path.{◌≡◌, refl}
use mathlib.Core.Bool.{Bool, true, false}

-- `assertion`: an `assert` fails. `out_of_range`: the exception that `at` throws for a missing key.
-- `bad_access`: a read or write outside a buffer, or through an iterator that is not valid.
-- `no_fuel`: the model's bound on the rounds of a loop, which is proved to be enough.
-- `end_of_stream`: the reader of a stream finds fewer bytes than it was asked for.
-- `send_failed`: a connection takes no more bytes.
-- `length_error`: the exception of `std::vector` for a size that it can never have.
pub data Error : Type 0 where
  assertion out_of_range bad_access no_fuel end_of_stream send_failed length_error : Error

-- A run either stops with an error or yields a value.
pub data Result {ℓ} (Value : Type ℓ) : Type ℓ where
  err : Error → Result Value
  ok : Value → Result Value

infixl 5 ◌>>=◌
abbrev pub ◌>>=◌ {ℓ κ} : {In : Type ℓ} {Out : Type κ} → Result In → (In → Result Out) → Result Out
err stop >>= next = err stop
ok value >>= next = next value

-- `assert(b)`
abbrev pub assert : Bool → Result (Unit {0})
assert holds = elim holds [ true ↦ ok tt | false ↦ err assertion ]

infixl 5 ◌>>◌
abbrev pub ◌>>◌ {κ} : {Out : Type κ} → Result (Unit {0}) → Result Out → Result Out
first >> second = first >>= (λ done. second)

-- The value that a run of two parts yields comes from a value of the first part.
pub >>=-eq-ok {ℓ κ} :
    {In : Type ℓ} {Out : Type κ} (first : Result In) (next : In → Result Out) {result : Out}
    → (first >>= next) ≡ ok result
    → (value : In) × (first ≡ ok value) × (next value ≡ ok result)
>>=-eq-ok (err stop) next run = cc
>>=-eq-ok (ok value) next run = (value, refl, run)
