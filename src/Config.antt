-- ===== src/Config.antt =====
-- pkg/config/config.go. `getenv` is os.Getenv, which gives "" for a variable that is not set.
pub mod Numerals
use Prim.Native.Char.{Char, code}
use realtime_order_inventory.Prelude.{
  ℕ, zero, suc, ◌+◌, ◌-◌, ◌*◌, String, Bool, ◌&&◌, Option, none, some, List, [], ◌∷◌, ◌==◌,
  if◌then◌else◌, leb,
}
use realtime_order_inventory.Prelude.Int.{ℤ, pos, negsuc}

pub record ServerConfig : Type 0 where
  pub http_port : String
  pub grpc_port : String

pub record DatabaseConfig : Type 0 where
  pub host : String
  pub port : ℤ
  pub user : String
  pub password : String
  pub name : String
  pub ssl_mode : String

pub record RedisConfig : Type 0 where
  pub host : String
  pub port : ℤ
  pub password : String

pub record KafkaConfig : Type 0 where
  pub brokers : List String

pub record Config : Type 0 where
  pub server : ServerConfig
  pub database : DatabaseConfig
  pub redis : RedisConfig
  pub kafka : KafkaConfig

unfoldable pub is_digit : Char → Bool
is_digit c = leb 48 (code c) && leb (code c) 57

unfoldable pub digits : String → ℕ → Option ℕ
unfolding is_digit
digits String.[] n = some n
digits (String.◌∷◌ c s) n =
    let rest = digits s (n * 10 + (code c - 48)) in if is_digit c then rest else none

unfoldable pub unsigned : String → Option ℕ
unfolding digits
unsigned String.[] = none
unsigned (String.◌∷◌ c s) = digits (String.◌∷◌ c s) 0

abbrev pub max_int : ℕ
max_int = 9223372036854775807

unfoldable pub positive : Option ℕ → Option ℤ
positive none = none
positive (some n) = if leb n max_int then some (pos n) else none

unfoldable pub negative : Option ℕ → Option ℤ
negative none = none
negative (some zero) = some (pos zero)
negative (some (suc n)) = if leb n max_int then some (negsuc n) else none

-- strconv.Atoi, with none for its error: a sign or none, then digits, within 64 bits.
unfoldable pub atoi : String → Option ℤ
unfolding unsigned positive negative
atoi String.[] = none
atoi (String.◌∷◌ c s) =
    if leb 45 (code c) && leb (code c) 45
    then negative (unsigned s)
    else if leb 43 (code c) && leb (code c) 43
    then positive (unsigned s)
    else positive (unsigned (String.◌∷◌ c s))

abbrev pub or_default : {A : Type 0} → A → Option A → A
or_default a none = a
or_default a (some b) = b

module _ (getenv : String → String) where
  unfoldable pub get_env : String → String → String
  get_env key default_value = let value = getenv key in if value == "" then default_value else value

  unfoldable pub get_env_as_int : String → ℤ → ℤ
  unfolding atoi
  get_env_as_int key default_value =
      let value = getenv key in
      if value == "" then default_value else or_default default_value (atoi value)

  unfoldable pub load : Config
  unfolding get_env get_env_as_int
  load = record {
    server = record {
      http_port = get_env "HTTP_PORT" "8080";
      grpc_port = get_env "GRPC_PORT" "9090";
    };
    database = record {
      host = get_env "DB_HOST" "localhost";
      port = get_env_as_int "DB_PORT" (pos 5432);
      user = get_env "DB_USER" "postgres";
      password = get_env "DB_PASSWORD" "postgres";
      name = get_env "DB_NAME" "order_db";
      ssl_mode = get_env "DB_SSLMODE" "disable";
    };
    redis = record {
      host = get_env "REDIS_HOST" "localhost";
      port = get_env_as_int "REDIS_PORT" (pos 6379);
      password = get_env "REDIS_PASSWORD" "";
    };
    kafka = record { brokers = get_env "KAFKA_BROKERS" "localhost:9092" ∷ [] };
  }
