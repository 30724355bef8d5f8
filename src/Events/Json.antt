-- ===== src/Events/Json.antt =====
-- encoding/json as the services use it: the tree of a text, and the rules of json.Unmarshal for a field
-- of a struct. Keys are compared as they are written; of a key that stands twice the last one counts.
use realtime_order_inventory.Prelude.{String, Bool, Option, none, some, ◌==◌, if◌then◌else◌}
use realtime_order_inventory.Prelude.Int.{ℤ, pos}
use realtime_order_inventory.Errors.{Error, Result, ok, err}
use realtime_order_inventory.Config.{atoi}

mutual
  pub data Json : Type 0 where
    null : Json
    bool : Bool → Json
    number : String → Json
    text : String → Json
    array : Elements → Json
    object : Fields → Json

  pub data Elements : Type 0 where
    nil : Elements
    cons : Json → Elements → Elements

  pub data Fields : Type 0 where
    end : Fields
    field : String → Json → Fields → Fields

-- The text of a tree and the tree of a text, and the error of a value that does not fit its field.
pub record Codec : Type 0 where
  pub print : Json → String
  pub parse : String → Result Json
  pub mismatch : Error

infixl 10 ◌>>=◌ ◌>>◌
abbrev pub ◌>>=◌ : {A B : Type 0} → Result A → (A → Result B) → Result B
ok a >>= f = f a
err x >>= f = err x

abbrev pub ◌>>◌ : {A B : Type 0} → Result A → Result B → Result B
m >> n = m >>= λ _. n

abbrev pub or_else : {A : Type 0} → Option A → Option A → Option A
or_else none b = b
or_else (some a) b = some a

unfoldable pub member : String → Fields → Option Json
member k end = none
member k (field k' v fs) = or_else (member k fs) (if k' == k then some v else none)

abbrev pub in_range : Error → Option ℤ → Result ℤ
in_range mismatch none = err mismatch
in_range mismatch (some n) = ok n

-- A missing field and a null leave Go's zero value; another value of the wrong kind is an error.
module _ (mismatch : Error) where
  unfoldable pub read_text : Option Json → Result String
  read_text none = ok ""
  read_text (some null) = ok ""
  read_text (some (text s)) = ok s
  read_text (some _) = err mismatch

  -- An int takes a number that strconv.ParseInt takes.
  unfoldable pub read_int : Option Json → Result ℤ
  read_int none = ok (pos 0)
  read_int (some null) = ok (pos 0)
  read_int (some (number s)) = in_range mismatch (atoi s)
  read_int (some _) = err mismatch

  -- A float64 that nothing reads.
  unfoldable pub read_float : Option Json → Result (Unit {0})
  read_float none = ok tt
  read_float (some null) = ok tt
  read_float (some (number s)) = ok tt
  read_float (some _) = err mismatch

  unfoldable pub read_struct : Option Json → Result Fields
  read_struct none = ok end
  read_struct (some null) = ok end
  read_struct (some (object fs)) = ok fs
  read_struct (some _) = err mismatch

  unfoldable pub read_slice : Option Json → Result Elements
  read_slice none = ok nil
  read_slice (some null) = ok nil
  read_slice (some (array js)) = ok js
  read_slice (some _) = err mismatch

  -- A []string that nothing reads.
  unfoldable pub read_texts : Elements → Result (Unit {0})
  unfolding read_text
  read_texts nil = ok tt
  read_texts (cons j js) = do read_text (some j); read_texts js
