-- ===== src/Config/Numerals.antt =====
-- Numbers in the environment of pkg/config/config.go.
use Prim.Native.Char.{Char, code}
use text.Mathlib.TextLemmas as TextLemmas
use realtime_order_inventory.Prelude.{
  ℕ, ◌+◌, ◌-◌, ◌*◌, ◌≤◌, ◌≡◌, refl, String, true, false, ◌&&◌, none, some, List, [], ◌∷◌, ◌==◌, leb,
  Bool-cases, inl, inr, eq_iff, arith,
}
use realtime_order_inventory.Prelude.Int.{ℤ, pos}
use realtime_order_inventory.Config.{
  max_int, is_digit, digits, unsigned, positive, atoi, get_env_as_int, load,
}

pub data Digit : Type 0 where
  d0 d1 d2 d3 d4 d5 d6 d7 d8 d9 : Digit

abbrev pub char_of : Digit → Char
char_of d0 = "0"
char_of d1 = "1"
char_of d2 = "2"
char_of d3 = "3"
char_of d4 = "4"
char_of d5 = "5"
char_of d6 = "6"
char_of d7 = "7"
char_of d8 = "8"
char_of d9 = "9"

abbrev pub value : Digit → ℕ
value d0 = 0
value d1 = 1
value d2 = 2
value d3 = 3
value d4 = 4
value d5 = 5
value d6 = 6
value d7 = 7
value d8 = 8
value d9 = 9

-- The text of decimal digits, the first one first, and their number.
abbrev pub numeral : List Digit → String
numeral [] = ""
numeral (d ∷ ds) = String.◌∷◌ (char_of d) (numeral ds)

abbrev pub number : ℕ → List Digit → ℕ
number n [] = n
number n (d ∷ ds) = number (n * 10 + value d) ds

-- A digit is read as its value, and is no sign.
digit_lem :
    (d : Digit)
    → (is_digit (char_of d) ≡ true)
      × ((code (char_of d) - 48 ≡ value d)
          × (((leb 45 (code (char_of d)) && leb (code (char_of d)) 45) ≡ false)
              × ((leb 43 (code (char_of d)) && leb (code (char_of d)) 43) ≡ false)))
unfolding is_digit
digit_lem d0 = (refl, (refl, (refl, refl)))
digit_lem d1 = (refl, (refl, (refl, refl)))
digit_lem d2 = (refl, (refl, (refl, refl)))
digit_lem d3 = (refl, (refl, (refl, refl)))
digit_lem d4 = (refl, (refl, (refl, refl)))
digit_lem d5 = (refl, (refl, (refl, refl)))
digit_lem d6 = (refl, (refl, (refl, refl)))
digit_lem d7 = (refl, (refl, (refl, refl)))
digit_lem d8 = (refl, (refl, (refl, refl)))
digit_lem d9 = (refl, (refl, (refl, refl)))

digits-numeral : (ds : List Digit) (n : ℕ) → digits (numeral ds) n ≡ some (number n ds)
unfolding digits
digits-numeral [] n = refl
digits-numeral (d ∷ ds) n =
    let (digit, (same, signs)) = digit_lem d in
    rw (digit, same) (digits-numeral ds (n * 10 + value d))

-- strconv.Atoi reads the decimal numeral of a number below 2 ^ 63 as that number.
pub atoi-numeral :
    (d : Digit) (ds : List Digit)
    → number 0 (d ∷ ds) ≤ max_int
    → atoi (numeral (d ∷ ds)) ≡ some (pos (number 0 (d ∷ ds)))
unfolding atoi unsigned positive
atoi-numeral d ds h =
    let (digit, (same, (minus, plus))) = digit_lem d in
    let small : leb (number 0 (d ∷ ds)) max_int ≡ true = ground arith in
    rw (minus, plus, digits-numeral (d ∷ ds) 0, small)

numeral_given : (d : Digit) (ds : List Digit) → (numeral (d ∷ ds) == "") ≡ false
numeral_given d ds = elim (Bool-cases (numeral (d ∷ ds) == "")) [
  | inl empty ↦ absurd (TextLemmas.cons-ne-nil (char_of d) (numeral ds) ((eq_iff _ _).0 empty))
  | inr given ↦ given
]

number_given :
    (getenv : String → String) (key : String) (default_value : ℤ) (d : Digit) (ds : List Digit)
    → number 0 (d ∷ ds) ≤ max_int
    → getenv key ≡ numeral (d ∷ ds)
    → get_env_as_int getenv key default_value ≡ pos (number 0 (d ∷ ds))
unfolding get_env_as_int
number_given getenv key default_value d ds h given =
    rw (given, numeral_given d ds, atoi-numeral d ds h)

default_kept :
    (getenv : String → String) (key : String) (default_value : ℤ)
    → atoi (getenv key) ≡ none
    → get_env_as_int getenv key default_value ≡ default_value
unfolding get_env_as_int
default_kept getenv key default_value refused = elim (Bool-cases (getenv key == "")) [
  | inl empty ↦ rw empty
  | inr given ↦ rw (given, refused)
]

-- Load takes a port from a variable that holds the decimal numeral of a number below 2 ^ 63, and the
-- default port where strconv.Atoi refuses the variable's text, as it does the empty one.
pub load_ports :
    (getenv : String → String) (d : Digit) (ds : List Digit)
    → number 0 (d ∷ ds) ≤ max_int
    → getenv "DB_PORT" ≡ numeral (d ∷ ds)
    → atoi (getenv "REDIS_PORT") ≡ none
    → ((load getenv).database.port ≡ pos (number 0 (d ∷ ds)))
      × ((load getenv).redis.port ≡ pos 6379)
unfolding load
load_ports getenv d ds h given refused = (
  number_given getenv "DB_PORT" (pos 5432) d ds h given,
  default_kept getenv "REDIS_PORT" (pos 6379) refused,
)
