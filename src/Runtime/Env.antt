-- ===== src/Runtime/Env.antt =====
-- What the code calls and does not implement: the Redis client and server, the clock, randomness,
-- bcrypt. `W` is the state of all that, and an operation gives its reply and the next state.
use easyhooks.Prelude.{ℤ, Bytes, Bool, Option, List}
use easyhooks.Runtime.Errors.{Error, Result}
use easyhooks.Runtime.Events.{XaddArgs, XreadGroupArgs, Xmessage, Xstream, GroupInfo}

pub record Env (W : Type 0) : Type 0 where
  -- SET key value NX EX ttl: whether the key was set
  pub set_nx : Bytes → Bytes → ℤ → W → Result Bool × W
  -- SET key value EX ttl
  pub set : Bytes → Bytes → ℤ → W → Result Unit × W
  -- GET key, with the error `redis_nil` for a missing key
  pub get : Bytes → W → Result Bytes × W
  -- DEL key, EXISTS key: the number of keys
  pub del : Bytes → W → Result ℤ × W
  pub exists : Bytes → W → Result ℤ × W
  -- XADD: the new entry's id
  pub xadd : XaddArgs → W → Result Bytes × W
  -- XGROUP CREATE stream group start MKSTREAM
  pub group_create : Bytes → Bytes → Bytes → W → Result Unit × W
  -- XTRIM stream MAXLEN ~ n: the number of entries removed
  pub xtrim_max_len_approx : Bytes → ℤ → W → Result ℤ × W
  pub xread_group : XreadGroupArgs → W → Result (List Xstream) × W
  pub xack : Bytes → Bytes → List Bytes → W → Result ℤ × W
  pub xinfo_groups : Bytes → W → Result (List GroupInfo) × W
  -- XREVRANGE stream stop start COUNT n, newest first
  pub xrev_range : Bytes → Bytes → Bytes → ℤ → W → Result (List Xmessage) × W
  pub ping : W → Result Unit × W
  -- INFO section
  pub info : Bytes → W → Result Bytes × W
  -- The race of `ctx.Done()` against a timer of so many nanoseconds: `some` error if the context
  -- ended first.
  pub wait : ℤ → W → Option Error × W
  -- ctx.Err()
  pub context_err : W → Option Error
  -- The conversion of an integral float to int64, which keeps what is in range.
  pub float_to_int64 : ℤ → ℤ
  -- time.Now().Unix()
  pub now : W → ℤ × W
  -- n random bytes
  pub random : ℤ → W → Result Bytes × W
  -- uuid.New()
  pub new_uuid : W → Bytes × W
  -- bcrypt.GenerateFromPassword at the code's cost
  pub bcrypt_hash : Bytes → W → Result Bytes × W
