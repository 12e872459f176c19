-- ===== src/Database.antt =====
-- The type `Redis` of internal/database/redis.go and its methods, and `Config` of
-- internal/database/config.go. The client of Redis and the peers of the server are outside of the
-- repository: a record of operations on their state.
use cache_learning_notes.Base.{ℕ, ◌≡◌, [], ◌∷◌, ◌++◌, Option, none, some, Bool, true, Text}

pub record Config : Type 0 where
  pub redis_host : Text
  pub redis_port : Text
  pub redis_password : Text
  pub redis_db : ℕ

abbrev pub default_config : Config
default_config = record {
  redis_host = b'l' ∷ b'o' ∷ b'c' ∷ b'a' ∷ b'l' ∷ b'h' ∷ b'o' ∷ b's' ∷ b't' ∷ [];
  redis_port = b'6' ∷ b'3' ∷ b'7' ∷ b'9' ∷ [];
  redis_password = [];
  redis_db = 0;
}

-- `addr`, `password` and `db` are the options that the client is made with.
pub record Redis : Type 0 where
  pub redis_host : Text
  pub redis_port : Text
  pub redis_password : Text
  pub redis_db : ℕ
  pub addr : Text
  pub password : Text
  pub db : ℕ

-- The configuration that is given is not looked at.
unfoldable pub new_redis : Config → Redis
new_redis config = record {
  redis_host = default_config.redis_host;
  redis_port = default_config.redis_port;
  redis_password = default_config.redis_password;
  redis_db = default_config.redis_db;
  addr = default_config.redis_host ++ b':' ∷ default_config.redis_port;
  password = default_config.redis_password;
  db = default_config.redis_db;
}

-- `W` is the state of Redis and of the peers, `C` the type of a peer's client. An answer `none` and a
-- `false` are an error; the client of Redis answers a missing key with an error too. The number of
-- a `client_set` is the expiration, where 0 is none.
pub record World (C W : Type 0) : Type 0 where
  pub client_get : W → Text → W × Option Text
  pub client_set : W → Text → Text → ℕ → W × Bool
  pub client_del : W → Text → W × Bool
  pub peer_get : C → W → Text → W × Option Text
  pub peer_set : C → W → Text → Text → W × Option Text
  pub peer_delete : C → W → Text → W × Option Bool

module _ {C W : Type 0} (world : World C W) where
  unfoldable pub redis_get : W → Text → W × Option Text
  redis_get w key = world.client_get w key

  unfoldable pub redis_set : W → Text → Text → W × Bool
  redis_set w key value = world.client_set w key value 0

  unfoldable pub redis_delete : W → Text → W × Bool
  redis_delete w key = world.client_del w key

-- Redis keeps what it acknowledged: the next read of a key that was written without an expiration
-- gives the value, and of a key that was deleted an error.
pub record RedisKeeps {C W : Type 0} (world : World C W) : Type 0 where
  pub get_set :
      (w : W) (key value : Text)
      → (world.client_set w key value 0).1 ≡ true
      → (world.client_get (world.client_set w key value 0).0 key).1 ≡ some value
  pub get_delete :
      (w : W) (key : Text)
      → (world.client_del w key).1 ≡ true
      → (world.client_get (world.client_del w key).0 key).1 ≡ none
