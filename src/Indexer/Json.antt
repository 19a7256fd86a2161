-- ===== src/Indexer/Json.antt =====
-- The JSON values of a contract event and the readers `toNumber`, `toStringValue` and `toHexValue`
-- of indexer/src/sync.ts. An array is an object whose keys are its indices, `undefined` is `none`.
-- Numbers are natural.
use carbon_veritas.Base.{
  ℕ, String, Bool, true, false, not, Option, none, some, ◌==◌, str_eq, if◌then◌else◌,
}

mutual
  pub data Json : Type 0 where
    null : Json
    bool : Bool → Json
    num : ℕ → Json
    str : String → Json
    obj : Fields → Json

  pub data Fields : Type 0 where
    end : Fields
    field : String → Json → Fields → Fields

-- JavaScript's `Number` and `String` of the values that are not already one; `none` is an exception.
pub record Conversions : Type 0 where
  pub number_of : Json → Option ℕ
  pub string_of : Json → Option String

-- Reading in a `try` block.
infixl 5 ◌>>=◌
abbrev pub ◌>>=◌ : {A B : Type 0} → Option A → (A → Option B) → Option B
none >>= f = none
some a >>= f = f a

-- `a ?? b`, on values that may be undefined
infixr 6 ◌//◌
abbrev pub ◌//◌ : Option Json → Option Json → Option Json
none // d = d
some null // d = d
some (bool b) // d = some (bool b)
some (num n) // d = some (num n)
some (str s) // d = some (str s)
some (obj fs) // d = some (obj fs)

unfoldable pub find_field : String → Fields → Option Json
find_field k end = none
find_field k (field k' v fs) = let rest = find_field k fs in if str_eq k' k then some v else rest

-- `v.k`
unfoldable pub get : Json → String → Option Json
get (obj fs) k = find_field k fs
get v k = none

-- The condition of an `if`, a `?:` or a `!` on a value.
unfoldable pub truthy : Option Json → Bool
truthy none = false
truthy (some null) = false
truthy (some (bool b)) = b
truthy (some (num n)) = not (n == 0)
truthy (some (str s)) = not (str_eq s "")
truthy (some (obj fs)) = true

-- `Number(v)` and `String(v)`
unfoldable pub number : Conversions → Json → Option ℕ
number js (num n) = some n
number js v = js.number_of v

unfoldable pub text : Conversions → Json → Option String
text js (str s) = some s
text js v = js.string_of v

-- `Number(v ?? 0)` and `String(v ?? '')`
unfoldable pub number_or : Conversions → Option Json → Option ℕ
number_or js v = elim (v // some (num 0)) [ none ↦ some 0 | some j ↦ number js j ]

unfoldable pub text_or : Conversions → Option Json → String → Option String
text_or js v d = elim (v // some (str d)) [ none ↦ some d | some j ↦ text js j ]

-- The chain `o.a ?? o.b ?? ...` of `toNumber`, which ends in the object itself.
abbrev pub inner_number : Fields → Option Json
inner_number fs =
    let o = obj fs in get o "u64" // get o "i128" // get o "i256" // get o "value" // some o

unfoldable pub to_number : Conversions → Option Json → Option ℕ
to_number js (some (obj fs)) = elim (inner_number fs) [
  | some (obj inner) ↦ number_or js (get (obj inner) "value")
  | inner ↦ number_or js inner
]
to_number js v = number_or js v

-- `addr.account ?? (typeof addr.publicKey === 'string' ? addr : undefined)`
abbrev pub account_of : Json → Option Json
account_of addr =
    get addr "account" // elim (get addr "publicKey") [ some (str s) ↦ some addr | _ ↦ none ]

abbrev pub contract_text : Conversions → Json → Option String
contract_text js addr = elim (get addr "contract") [
  | some (obj contract) ↦ text_or js (get (obj contract) "contract_id") ""
  | _ ↦ text_or js (get addr "contract_id" // get addr "publicKey" // get addr "value") ""
]

abbrev pub address_text : Conversions → Json → Option String
address_text js addr = elim (account_of addr) [
  | some (obj account) ↦
      let inner = obj account in
      text_or js (get inner "publicKey" // get inner "contract" // get inner "value") ""
  | _ ↦ contract_text js addr
]

-- `o.address ?? o` is an object unless `o.address` is a truthy primitive, or a falsy one.
unfoldable pub to_string_value : Conversions → Option Json → Option String
to_string_value js (some (obj fs)) =
    let o = obj fs in
    elim (get o "address" // some o) [
      | some (obj container) ↦ address_text js (obj container)
      | _ ↦ text_or js (get o "symbol" // get o "str" // get o "bytes" // get o "value") ""
    ]
to_string_value js v = text_or js v ""

unfoldable pub to_hex_value : Conversions → Option Json → Option String
to_hex_value js (some (obj fs)) =
    let o = obj fs in text_or js (get o "bytes" // get o "hex" // get o "value") ""
to_hex_value js v = text_or js v ""
